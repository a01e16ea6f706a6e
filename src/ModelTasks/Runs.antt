-- ===== src/ModelTasks/Runs.antt =====
-- How often the handler of a task is called.
use home_budget_pipeline.Prelude.{
  ℕ, ◌+◌, ◌≤◌, ◌<◌, Bool, true, false, Option, none, some, List, [], ◌∷◌, ◌==◌, if◌then◌else◌, ◌≡◌,
  refl, sym, subst, ◌∙◌, inl, inr, Bool-cases, arith, ==_iff,
}
use home_budget_pipeline.Prelude.Text.{Text}
use home_budget_pipeline.Prelude.Table.{
  Table, lookup, update, lookup-upsert, lookup-update, map_some,
}
use home_budget_pipeline.Prelude.Result.{Result}
use home_budget_pipeline.ModelTasks.{
  Provider, Task, TaskResult, TaskStore, TaskError, Execution, new_task, add_found, add_task,
  execute_found, execute, run_task, run_unfinished, attempt_task, log_call, raise_attempts,
  with_result, same_provider,
}

unfoldable pub calls_of : ℕ → List ℕ → ℕ
calls_of id [] = 0
calls_of id (j ∷ calls) = let rest = calls_of id calls in if j == id then rest + 1 else rest

-- The calls for a task are at most its attempts, and at most two.
abbrev pub IsCounted : ℕ → Option Task → Type 0
IsCounted calls none = calls ≡ 0
IsCounted calls (some t) = (calls ≤ t.attempts) × (calls ≤ 2)

abbrev pub IsFair : TaskStore → Type 0
IsFair s = (id : ℕ) → IsCounted (calls_of id s.handled) (lookup id s.tasks)

calls-log_call :
    (k id : ℕ) (called : Bool) (calls : List ℕ)
    → calls_of id (log_call k called calls) ≡ (
        if called
        then (if k == id then calls_of id calls + 1 else calls_of id calls)
        else calls_of id calls)
unfolding calls_of
calls-log_call k id false calls = refl
calls-log_call k id true calls = refl

-- The handler is called only for a task with fewer than two attempts.
called_early : (t : Task) (e : Execution) → (attempt_task t e).1 ≡ true → t.attempts < 2
unfolding attempt_task
called_early t e h = ground arith

IsCounted-if :
    (test : Bool) (c : ℕ) (x y : Option Task)
    → (test ≡ true → IsCounted c x)
    → (test ≡ false → IsCounted c y)
    → IsCounted c (if test then x else y)
IsCounted-if true c x y h k = h refl
IsCounted-if false c x y h k = k refl

add_found-IsFair :
    (id : ℕ) (provider : Provider) (input : Text) (deadline : ℕ) (s : TaskStore) (o : Option Task)
    → lookup id s.tasks ≡ o
    → IsFair s
    → IsFair (add_found id provider input deadline s o).1
unfolding add_found
add_found-IsFair id provider input deadline s none h fair j =
    subst (IsCounted (calls_of j s.handled)) (sym (lookup-upsert id j _ s.tasks)) (
      IsCounted-if (id == j) _ _ _
        (λ e. not_called j (subst (λ k. lookup k s.tasks ≡ none) ((==_iff id j).0 e) h))
        (λ e. fair j))
  where
    not_called :
        (j : ℕ)
        → lookup j s.tasks ≡ none
        → IsCounted (calls_of j s.handled) (some (new_task provider input deadline))
    not_called j none_there =
        let none_called : calls_of j s.handled ≡ 0 =
          subst (IsCounted (calls_of j s.handled)) none_there (fair j) in
        rw none_called (omega arith, omega arith)
add_found-IsFair id provider input deadline s (some t) h fair j = fair j

-- After a run of the task k, its own count, and the counts of the others.
IsCounted-run :
    (c : ℕ) (called : Bool) (t t' : Task)
    → (called ≡ true → t.attempts < 2)
    → t'.attempts ≡ t.attempts + 1
    → IsCounted c (some t)
    → IsCounted (if called then c + 1 else c) (some t')
IsCounted-run c true t t' early raised h =
    rw raised (omega (arith, early refl, h.0), omega (arith, early refl, h.0))
IsCounted-run c false t t' early raised h = rw raised (omega (arith, h.0), h.1)

abbrev ran : Bool → TaskResult → Task → Task
ran dies r t = if dies then raise_attempts t else with_result r (raise_attempts t)

lookup-run :
    (k j : ℕ) (dies : Bool) (r : TaskResult) (t : Table Task)
    → lookup j (
        if dies
        then update k raise_attempts t
        else update k (with_result r) (update k raise_attempts t))
      ≡ (if k == j then map_some (ran dies r) (lookup j t) else lookup j t)
lookup-run k j true r t = lookup-update k j raise_attempts t
lookup-run k j false r t =
    lookup-update k j (with_result r) (update k raise_attempts t)
    ∙ (rw (lookup-update k j raise_attempts t) (twice (k == j) (lookup j t)))
  where
    twice :
        (same : Bool) (o : Option Task)
        → (if same
            then map_some (with_result r) (if same then map_some raise_attempts o else o)
            else if same
            then map_some raise_attempts o
            else o)
          ≡ (if same then map_some (ran false r) o else o)
    twice true none = refl
    twice true (some t) = refl
    twice false o = refl

ran-attempts : (dies : Bool) (r : TaskResult) (t : Task) → (ran dies r t).attempts ≡ t.attempts + 1
ran-attempts true r t = refl
ran-attempts false r t = refl

run-IsCounted :
    (k j : ℕ) (called dies : Bool) (r : TaskResult) (t : Task) (s : TaskStore)
    → lookup k s.tasks ≡ some t
    → (called ≡ true → t.attempts < 2)
    → IsFair s
    → IsCounted
        (if called
          then (if k == j then calls_of j s.handled + 1 else calls_of j s.handled)
          else calls_of j s.handled)
        (if k == j then map_some (ran dies r) (lookup j s.tasks) else lookup j s.tasks)
run-IsCounted k j called dies r t s h early fair = elim (Bool-cases (k == j)) [
  | inl e ↦
      let same : lookup j s.tasks ≡ some t =
        subst (λ i. lookup i s.tasks ≡ some t) ((==_iff k j).0 e) h in
      rw e (
        rw same (
          IsCounted-run (calls_of j s.handled) called t (ran dies r t) early (ran-attempts dies r t)
            (subst (IsCounted (calls_of j s.handled)) same (fair j))))
  | inr e ↦ rw e (
      subst (λ c. IsCounted c (lookup j s.tasks)) (unchanged called (calls_of j s.handled))
        (fair j))
]
  where
    unchanged : (b : Bool) (c : ℕ) → c ≡ (if b then c else c)
    unchanged true c = refl
    unchanged false c = refl

run_task-IsFair :
    (k : ℕ) (t : Task) (e : Execution) (s : TaskStore)
    → lookup k s.tasks ≡ some t
    → IsFair s
    → IsFair (run_task k t e s)
unfolding run_task
run_task-IsFair k t e s h fair j =
    let (result, called) = attempt_task t e in
    rw (calls-log_call k j called s.handled) (
      rw (lookup-run k j e.dies result s.tasks)
        (run-IsCounted k j called e.dies result t s h (called_early t e) fair))

run_unfinished-IsFair :
    (k : ℕ) (t : Task) (e : Execution) (o : Option TaskResult) (s : TaskStore)
    → lookup k s.tasks ≡ some t
    → IsFair s
    → IsFair (run_unfinished k t e o s)
unfolding run_unfinished
run_unfinished-IsFair k t e none s h fair = run_task-IsFair k t e s h fair
run_unfinished-IsFair k t e (some r) s h fair = fair

IsFair-if :
    (test : Bool) (x y : Result TaskError (Option Text) × TaskStore)
    → IsFair x.1
    → IsFair y.1
    → IsFair (if test then x else y).1
IsFair-if true x y h k = h
IsFair-if false x y h k = k

execute_found-IsFair :
    (k : ℕ) (provider : Provider) (e : Execution) (s : TaskStore) (o : Option Task)
    → lookup k s.tasks ≡ o
    → IsFair s
    → IsFair (execute_found k provider e s o).1
unfolding execute_found
execute_found-IsFair k provider e s none h fair = fair
execute_found-IsFair k provider e s (some t) h fair =
    IsFair-if (same_provider t.provider provider) _ _
      (run_unfinished-IsFair k t e t.result s h fair) fair

execute-IsFair :
    (k : ℕ) (provider : Provider) (e : Execution) (s : TaskStore)
    → IsFair s
    → IsFair (execute k provider e s).1
unfolding execute
execute-IsFair k provider e s fair =
    IsFair-if e.locked _ _ (execute_found-IsFair k provider e s (lookup k s.tasks) refl fair) fair

abbrev pub empty_store : TaskStore
empty_store = record { tasks = []; handled = [] }

-- The stores that additions and executions lead to, in any order and by any workers.
pub data Reachable : TaskStore → Type 0 where
  nothing_added : Reachable empty_store
  added :
      {s : TaskStore} (id : ℕ) (provider : Provider) (input : Text) (deadline : ℕ)
      → Reachable s
      → Reachable (add_task id provider input deadline s).1
  executed :
      {s : TaskStore} (id : ℕ) (provider : Provider) (e : Execution)
      → Reachable s
      → Reachable (execute id provider e s).1

Reachable-IsFair : {s : TaskStore} → Reachable s → IsFair s
unfolding add_task lookup calls_of
Reachable-IsFair nothing_added = λ id. refl
Reachable-IsFair (added {s = s} id provider input deadline before) =
    add_found-IsFair id provider input deadline s (lookup id s.tasks) refl (Reachable-IsFair before)
Reachable-IsFair (executed {s = s} id provider e before) =
    execute-IsFair id provider e s (Reachable-IsFair before)

at_most_two : (c : ℕ) (o : Option Task) → IsCounted c o → c ≤ 2
at_most_two c none h = rw h (omega arith)
at_most_two c (some t) h = h.1

-- However often a task is delivered, added again, or left by a worker that dies, its handler is
-- called at most twice.
pub handler_called_twice : {s : TaskStore} → Reachable s → (id : ℕ) → calls_of id s.handled ≤ 2
handler_called_twice {s = s} reach id =
    at_most_two (calls_of id s.handled) (lookup id s.tasks) (Reachable-IsFair reach id)
