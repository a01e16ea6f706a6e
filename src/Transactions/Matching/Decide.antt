-- ===== src/Transactions/Matching/Decide.antt =====
-- `decide` and `summarize`: when a transaction is linked, and that the order of the candidates does
-- not matter.
use mathlib.Core.List.{Perm, Pairwise, mem-cons, mem-cons_self, nil≢cons}
use mathlib.Core.HLevel.{¬_prop}
use mathlib.Core.Logic.Or
use native.Mathlib.Bridge.{le_prop}
use native.Mathlib.Decide.{ℕ_discrete}
use mathlib.Core.List.Perm
use mathlib.Core.List.Pairwise
use home_budget_pipeline.Prelude.{
  ℕ, ◌+◌, ◌≤◌, ◌<◌, ◌≡◌, refl, ap, ◌≢◌, false, some, arith, List, [], ◌∷◌, map, All, All-mem,
  All-perm, sym, subst,
}
use home_budget_pipeline.Prelude.Ranking.{
  rank, IsRanked, rank-IsRanked, rank-perm, All-score-le, rank-eq_of_perm,
}
use home_budget_pipeline.Transactions.Matching.{
  matched, MatchCandidate, TransactionForMatching, CandidateScore, score, decide, judge, is_close,
  score_of, pk_of, auto_match_threshold, ambiguity_margin,
}

-- Every other candidate is behind the best by more than the margin.
abbrev pub IsClear : CandidateScore → List CandidateScore → Type 0
IsClear best rest = All (λ s. s.score + ambiguity_margin < best.score) rest

-- The winner of a link: it reaches the threshold and every other candidate is clearly behind it.
abbrev pub Wins : List CandidateScore → CandidateScore → Type 0
Wins scored best =
    (rest : List CandidateScore) × Perm scored (best ∷ rest)
    × (auto_match_threshold ≤ best.score)
    × IsClear best rest

-- The candidates of a transaction with their scores.
abbrev pub scores : TransactionForMatching → List MatchCandidate → List CandidateScore
scores t cs = map (score t) cs

IsClear-below :
    (b x : CandidateScore) (ys : List CandidateScore)
    → x.score + ambiguity_margin < b.score
    → All (λ y. y.score ≤ x.score) ys
    → IsClear b ys
IsClear-below b x [] lt k = tt
IsClear-below b x (y ∷ ys) lt k = (omega arith, IsClear-below b x ys lt k.1)

-- In a ranked list the second entry bounds the others.
IsClear-of_ranked :
    (best : CandidateScore) (rest : List CandidateScore)
    → IsRanked score_of pk_of rest
    → is_close best.score rest ≡ false
    → IsClear best rest
unfolding is_close
IsClear-of_ranked best [] r h = tt
IsClear-of_ranked best (s ∷ rest) r h = (
  ground arith,
  IsClear-below best s rest (ground arith) (All-score-le score_of pk_of s rest r.0),
)

judge-Wins :
    (id : ℕ) (ss : List CandidateScore)
    → IsRanked score_of pk_of ss
    → (judge id ss).outcome ≡ matched
    → (best : CandidateScore) × (rest : List CandidateScore) × (ss ≡ best ∷ rest)
      × (auto_match_threshold ≤ best.score)
      × IsClear best rest
      × ((judge id ss).matched_expense_pk ≡ some best.candidate.expense_pk)
unfolding judge
judge-Wins id [] r h = cc
judge-Wins id (best ∷ rest) r h =
    (best, rest, refl, ground arith, IsClear-of_ranked best rest r.1 (ground arith), ground arith)

-- A transaction is linked only to a candidate that reaches the threshold and is clear of every
-- other candidate by more than the margin.
pub decide_links_winner :
    (t : TransactionForMatching) (cs : List MatchCandidate)
    → (decide t cs).outcome ≡ matched
    → (best : CandidateScore) × Wins (scores t cs) best
      × ((decide t cs).matched_expense_pk ≡ some best.candidate.expense_pk)
unfolding decide
decide_links_winner t cs h =
    let ss : List CandidateScore = scores t cs in
    let (best, rest, e, high, clear, link) =
      judge-Wins t.transaction_id (rank score_of pk_of ss) (rank-IsRanked score_of pk_of ss) h in
    (
      best,
      (rest, subst (λ l. Perm ss l) e (Perm.symm (rank-perm score_of pk_of ss)), high, clear),
      link,
    )

is_close_of_clear :
    (best : CandidateScore) (rest : List CandidateScore)
    → IsClear best rest
    → is_close best.score rest ≡ false
unfolding is_close
is_close_of_clear best [] h = refl
is_close_of_clear best (s ∷ rest) h = ground arith

Links : ℕ → List CandidateScore → ℕ → Type 0
Links id ss pk = ((judge id ss).outcome ≡ matched) × ((judge id ss).matched_expense_pk ≡ some pk)

Links-prop : (id : ℕ) (ss : List CandidateScore) (pk : ℕ) → IsProp (Links id ss pk)
unfolding Links
Links-prop id ss pk = hlevel ℕ_discrete

judge-clear :
    (id : ℕ) (best : CandidateScore) (rest : List CandidateScore)
    → auto_match_threshold ≤ best.score
    → IsClear best rest
    → Links id (best ∷ rest) best.candidate.expense_pk
unfolding Links judge
judge-clear id best rest h k = ground (arith, is_close_of_clear best rest k)

clear_prop :
    (best : CandidateScore) (s : CandidateScore) → IsProp (s.score + ambiguity_margin < best.score)
clear_prop best s = le_prop

judge-of_Wins :
    (id : ℕ) (ss : List CandidateScore) (best : CandidateScore)
    → IsRanked score_of pk_of ss
    → Wins ss best
    → Links id ss best.candidate.expense_pk
judge-of_Wins id [] best r (rest, p, high, clear) = absurd (nil≢cons (Perm.nil-eq p))
judge-of_Wins id (x ∷ ys) best r (rest, p, high, clear) =
    Or.elim (Links-prop id (x ∷ ys) best.candidate.expense_pk)
      (mem-cons.0 ((Perm.mem_iff p).0 mem-cons_self))
      (λ e.
        let q : Perm (best ∷ ys) (best ∷ rest) = subst (λ z. Perm (z ∷ ys) (best ∷ rest)) e p in
        subst (λ z. Links id (z ∷ ys) best.candidate.expense_pk) (sym e)
          (judge-clear id best ys high (
            All-perm (λ s. s.score + ambiguity_margin < best.score) (clear_prop best) rest ys
              (Perm.symm (Perm.cons_inv q)) clear)))
      (λ m.
        let behind : x.score + ambiguity_margin < best.score =
          All-mem (λ s. s.score + ambiguity_margin < best.score) (clear_prop best) rest clear x m in
        let ahead : best.score ≤ x.score =
          All-mem (λ s. s.score ≤ x.score) (λ s. le_prop) (x ∷ ys)
            (omega arith, All-score-le score_of pk_of x ys r.0) best
            ((Perm.mem_iff p).1 mem-cons_self) in
        absurd (omega arith))

-- A candidate that reaches the threshold and is clear of every other by more than the margin is
-- linked.
pub decide_links_clear_winner :
    (t : TransactionForMatching) (cs : List MatchCandidate) (best : CandidateScore)
    → Wins (scores t cs) best
    → ((decide t cs).outcome ≡ matched)
      × ((decide t cs).matched_expense_pk ≡ some best.candidate.expense_pk)
unfolding decide Links
decide_links_clear_winner t cs best (rest, p, high, clear) =
    judge-of_Wins t.transaction_id (rank score_of pk_of (scores t cs)) best
      (rank-IsRanked score_of pk_of (scores t cs))
      (rest, Perm.trans (rank-perm score_of pk_of (scores t cs)) p, high, clear)

CandidateScore-set : IsSet CandidateScore
CandidateScore-set = hlevel ℕ_discrete

-- The order in which the candidates are read does not change the decision, where their expense keys
-- differ.
pub decide_order :
    (t : TransactionForMatching) (cs ds : List MatchCandidate)
    → Pairwise (λ a b. a.expense_pk ≢ b.expense_pk) cs
    → Perm cs ds
    → decide t cs ≡ decide t ds
unfolding decide
decide_order t cs ds distinct p = ap (judge t.transaction_id) (
    rank-eq_of_perm score_of pk_of CandidateScore-set (Perm.map (score t) p)
      (Pairwise.map (λ a b. ¬_prop) (score t) (λ a b h. unfold score in h) distinct))
