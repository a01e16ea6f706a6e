-- ===== src/Receipts/Sources/Settled.antt =====
-- A plan that has been applied leaves nothing to plan.
use home_budget_pipeline.Prelude.{
  ◌≡◌, refl, sym, ap, ◌∙◌, subst, Bool, true, false, not, ◌||◌, Option, none, some, List, [], ◌∷◌,
  Bool-cases, inl, inr, if◌then◌else◌, Option-cases, some-inj,
}
use home_budget_pipeline.Prelude.Text.{Text, ◌==ₜ◌, text_eq, text_refl}
use home_budget_pipeline.Categorization.Logic.{get}
use home_budget_pipeline.Receipts.Sources.{
  Files, SourceRow, text_less, smaller, first_match, is_hash, desired, change_for, plan_row,
  add_change, plan, apply_change, apply_plan, is_archive, restore, relocate,
}

-- No reference stands twice.
abbrev pub IsKeyedFiles : Files → Type 0
IsKeyedFiles [] = Unit
IsKeyedFiles ((r, _) ∷ files) = (get r files ≡ none) × IsKeyedFiles files

get-skip :
    (r s d sha : Text) (files : Files)
    → get r files ≡ none
    → get d files ≡ some sha
    → get d ((r, s) ∷ files) ≡ some sha
unfolding get
get-skip r s d sha files absent found = elim (Bool-cases (r ==ₜ d)) [
  | inl e ↦
      let same : r ≡ d = text_eq r d e in
      let clash : get d files ≡ none = ap (λ x. get x files) (sym same) ∙ absent in cc
  | inr e ↦ rw e found
]

get-here : (r s : Text) (files : Files) → get r ((r, s) ∷ files) ≡ some s
unfolding get
get-here r s files = rw (text_refl r) refl

smaller-get :
    (r s sha : Text) (files : Files) (rest : Option Text)
    → get r files ≡ none
    → s ≡ sha
    → ((q : Text) → rest ≡ some q → get q files ≡ some sha)
    → get (smaller r rest) ((r, s) ∷ files) ≡ some sha
smaller-get r s sha files none absent same h = get-here r s files ∙ ap some same
smaller-get r s sha files (some q) absent same h = elim (Bool-cases (text_less q r)) [
  | inl e ↦ rw e (get-skip r s q sha files absent (h q refl))
  | inr e ↦ rw e (get-here r s files ∙ ap some same)
]

if-then : (b : Bool) (x y : Option Text) → b ≡ true → (if b then x else y) ≡ x
if-then b x y h = rw h refl

if-else : (b : Bool) (x y : Option Text) → b ≡ false → (if b then x else y) ≡ y
if-else b x y h = rw h refl

first_match-get :
    (sha : Text) (files : Files) (d : Text)
    → IsKeyedFiles files
    → first_match sha files ≡ some d
    → get d files ≡ some sha
unfolding first_match
first_match-get sha [] d keyed h = cc
first_match-get sha ((r, s) ∷ files) d keyed h = elim (Bool-cases (s ==ₜ sha)) [
  | inl e ↦
      let picked : smaller r (first_match sha files) ≡ d = some-inj (
        sym
          (if-then (s ==ₜ sha) (some (smaller r (first_match sha files))) (first_match sha files) e)
        ∙ h) in
      subst (λ x. get x ((r, s) ∷ files) ≡ some sha) picked
        (smaller-get r s sha files (first_match sha files) keyed.0 (text_eq s sha e)
          (λ q found. first_match-get sha files q keyed.1 found))
  | inr e ↦ get-skip r s d sha files keyed.0 (
      first_match-get sha files d keyed.1 (
        sym
          (if-else (s ==ₜ sha) (some (smaller r (first_match sha files))) (first_match sha files) e)
        ∙ h))
]

is_hash-get : (sha : Text) (o : Option Text) → o ≡ some sha → is_hash sha o ≡ true
is_hash-get sha o h = rw h (text_refl sha)

-- A desired reference is that of a file with the hash.
desired-is_hash :
    (files : Files) (reference sha d : Text)
    → IsKeyedFiles files
    → desired files reference sha ≡ some d
    → is_hash sha (get d files) ≡ true
unfolding desired
desired-is_hash files reference sha d keyed h =
    elim (Bool-cases (is_hash sha (get reference files))) [
      | inl e ↦
          let same : reference ≡ d = some-inj (
            sym (
              if-then (is_hash sha (get reference files)) (some reference) (first_match sha files)
                e)
            ∙ h) in
          subst (λ x. is_hash sha (get x files) ≡ true) same e
      | inr e ↦ is_hash-get sha (get d files) (
          first_match-get sha files d keyed (
            sym (
              if-else (is_hash sha (get reference files)) (some reference) (first_match sha files)
                e)
            ∙ h))
    ]

desired_self :
    (files : Files) (d sha : Text) → is_hash sha (get d files) ≡ true → desired files d sha ≡ some d
unfolding desired
desired_self files d sha h = if-then (is_hash sha (get d files)) (some d) (first_match sha files) h

plan_row-desired :
    (files : Files) (row : SourceRow) {o : Option Text}
    → desired files row.source_reference row.source_sha256 ≡ o
    → plan_row files row ≡ change_for files row o
unfolding plan_row
plan_row-desired files row e = ap (change_for files row) e

choose : {A : Type 0} (b : Bool) (x y : A) → b ≡ true → (if b then x else y) ≡ x
choose b x y h = rw h refl

refuse : {A : Type 0} (b : Bool) (x y : A) → b ≡ false → (if b then x else y) ≡ y
refuse b x y h = rw h refl

-- Nothing changes where no file has the hash and the row is archived.
still_archived :
    (files : Files) (row : SourceRow)
    → desired files row.source_reference row.source_sha256 ≡ none
    → row.source_archived ≡ true
    → plan_row files row ≡ none
unfolding change_for
still_archived files row h e = plan_row-desired files row h ∙ choose row.source_archived none _ e

-- Nothing changes where the row names the desired file and is not archived.
still_there :
    (files : Files) (row : SourceRow) (d : Text)
    → desired files row.source_reference row.source_sha256 ≡ some d
    → (not (d ==ₜ row.source_reference) || row.source_archived) ≡ false
    → plan_row files row ≡ none
unfolding change_for
still_there files row d h e =
    plan_row-desired files row h
    ∙ refuse (not (d ==ₜ row.source_reference) || row.source_archived) _ none e

settled_without :
    (files : Files) (row : SourceRow)
    → desired files row.source_reference row.source_sha256 ≡ none
    → plan_row files (apply_change row (change_for files row none)) ≡ none
unfolding apply_change change_for
settled_without files row h = elim (Bool-cases row.source_archived) [
  | inl e ↦
      ap (λ c. plan_row files (apply_change row c)) (choose row.source_archived none _ e)
      ∙ still_archived files row h e
  | inr e ↦
      ap (λ c. plan_row files (apply_change row c)) (refuse row.source_archived none _ e)
      ∙ still_archived files (record row { source_archived = true }) h refl
]

restored : (b : Bool) → is_archive (if b then restore else relocate) ≡ false
restored true = refl
restored false = refl

settled_with :
    (files : Files) (row : SourceRow) (d : Text)
    → desired files row.source_reference row.source_sha256 ≡ some d
    → is_hash row.source_sha256 (get d files) ≡ true
    → plan_row files (apply_change row (change_for files row (some d))) ≡ none
unfolding apply_change change_for
settled_with files row d h k =
    let moved : Bool = not (d ==ₜ row.source_reference) || row.source_archived in
    elim (Bool-cases (not (d ==ₜ row.source_reference) || row.source_archived)) [
      | inl e ↦
          ap (λ c. plan_row files (apply_change row c)) (choose moved _ none e)
          ∙ still_there files
              (record row {
                source_reference = d;
                source_archived = is_archive (if row.source_archived then restore else relocate);
              })
              d (desired_self files d row.source_sha256 k)
              (rw (text_refl d) (restored row.source_archived))
      | inr e ↦
          ap (λ c. plan_row files (apply_change row c)) (refuse moved _ none e)
          ∙ still_there files row d h e
    ]

settled_row :
    (files : Files) (row : SourceRow)
    → IsKeyedFiles files
    → plan_row files (apply_change row (plan_row files row)) ≡ none
settled_row files row keyed =
    elim (Option-cases (desired files row.source_reference row.source_sha256)) [
      | inl e ↦
          ap (λ o. plan_row files (apply_change row o)) (plan_row-desired files row e)
          ∙ settled_without files row e
      | inr (d, e) ↦
          ap (λ o. plan_row files (apply_change row o)) (plan_row-desired files row e)
          ∙ settled_with files row d e
              (desired-is_hash files row.source_reference row.source_sha256 d keyed e)
    ]

-- Where the references of the files differ, a plan that has been applied leaves nothing to plan for
-- the same files.
pub plan_settles :
    (rows : List SourceRow) (files : Files)
    → IsKeyedFiles files
    → plan (apply_plan rows files) files ≡ []
unfolding plan apply_plan
plan_settles [] files keyed = refl
plan_settles (row ∷ rows) files keyed =
    ap (λ c. add_change c (plan (apply_plan rows files) files)) (settled_row files row keyed)
    ∙ plan_settles rows files keyed
