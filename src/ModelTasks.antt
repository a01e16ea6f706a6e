-- ===== src/ModelTasks.antt =====
-- model_collaboration_queue.py: the tasks of the model workers. A task's input is its JSON text, its
-- times are counted from a fixed moment, and statements are committed one by one.
pub mod Runs
mod Examples
use home_budget_pipeline.Prelude.{
  ℕ, ◌+◌, Bool, true, false, Option, none, some, List, ◌∷◌, leb, if◌then◌else◌,
}
use home_budget_pipeline.Prelude.Text.{Text, ◌==ₜ◌}
use home_budget_pipeline.Prelude.Table.{Table, lookup, upsert, update}
use home_budget_pipeline.Prelude.Result.{Result, raises, returns, require}

pub data Provider : Type 0 where
  qwen openai anthropic gemini : Provider

-- `a == b`
unfoldable pub same_provider : Provider → Provider → Bool
same_provider qwen qwen = true
same_provider openai openai = true
same_provider anthropic anthropic = true
same_provider gemini gemini = true
same_provider _ _ = false

-- The result of a task: what the handler returned, or the type of an error.
pub data TaskResult : Type 0 where
  answered : Text → TaskResult
  timeout_error runtime_error : TaskResult
  handler_error : Text → TaskResult

-- A row of `enrichment.model_collaboration_tasks`.
pub record Task : Type 0 where
  pub provider : Provider
  pub input : Text
  pub result : Option TaskResult
  pub attempts : ℕ
  pub deadline : ℕ

-- The `ValueError`s.
pub data TaskError : Type 0 where
  identity_reused unknown_task : TaskError

-- The tasks by their ids, and the handler's calls, the latest first.
pub record TaskStore : Type 0 where
  pub tasks : Table Task
  pub handled : List ℕ

abbrev pub new_task : Provider → Text → ℕ → Task
new_task provider input deadline = record {
  provider = provider;
  input = input;
  result = none;
  attempts = 0;
  deadline = deadline;
}

-- `add`, by the task that has the id: an insertion that leaves it as it is, and a check of its input.
unfoldable pub add_found :
    ℕ → Provider → Text → ℕ → TaskStore → Option Task → Result TaskError (Unit {0}) × TaskStore
unfolding upsert
add_found id provider input deadline s none =
    (returns tt, record s { tasks = upsert id (new_task provider input deadline) s.tasks })
add_found id provider input deadline s (some t) = (require (t.input ==ₜ input) identity_reused, s)

unfoldable pub add_task :
    ℕ → Provider → Text → ℕ → TaskStore → Result TaskError (Unit {0}) × TaskStore
unfolding lookup add_found
add_task id provider input deadline s = add_found id provider input deadline s (lookup id s.tasks)

-- What one execution meets: whether the lock is got, the time before and after the handler, what the
-- handler returns or the type of the exception that it raises, and whether the process dies before
-- the result is written.
pub record Execution : Type 0 where
  pub locked : Bool
  pub started : ℕ
  pub finished : ℕ
  pub handler : Text → Result Text Text
  pub dies : Bool

abbrev pub raise_attempts : Task → Task
raise_attempts t = record t { attempts = t.attempts + 1 }

abbrev pub with_result : TaskResult → Task → Task
with_result r t = record t { result = some r }

-- `handler(task['input'])`, and the check of the time after it.
abbrev pub checked_answer : Result Text Text → Bool → TaskResult
checked_answer (raises exc) late = handler_error exc
checked_answer (returns answer) late = if late then timeout_error else answered answer

-- The body of `try`: the result, and whether the handler was called.
unfoldable pub attempt_task : Task → Execution → TaskResult × Bool
attempt_task t e =
    if leb t.deadline e.started
    then (timeout_error, false)
    else if leb 2 t.attempts
    then (runtime_error, false)
    else (checked_answer (e.handler t.input) (leb t.deadline e.finished), true)

abbrev pub log_call : ℕ → Bool → List ℕ → List ℕ
log_call id false calls = calls
log_call id true calls = id ∷ calls

-- A task without a result: the attempt is counted before it is made.
unfoldable pub run_task : ℕ → Task → Execution → TaskStore → TaskStore
unfolding attempt_task update
run_task id t e s =
    let counted = update id raise_attempts s.tasks in
    let (result, called) = attempt_task t e in
    record {
      tasks = if e.dies then counted else update id (with_result result) counted;
      handled = log_call id called s.handled;
    }

abbrev pub run_unfinished : ℕ → Task → Execution → Option TaskResult → TaskStore → TaskStore
unfolding run_task
run_unfinished id t e none s = run_task id t e s
run_unfinished id t e (some r) s = s

-- The task that is read under the lock.
unfoldable pub execute_found :
    ℕ → Provider → Execution → TaskStore → Option Task → Result TaskError (Option Text) × TaskStore
unfolding run_unfinished same_provider
execute_found id provider e s none = (raises unknown_task, s)
execute_found id provider e s (some t) =
    if same_provider t.provider provider
    then (returns (some t.input), run_unfinished id t e t.result s)
    else (raises unknown_task, s)

-- `execute`: nothing without the lock; otherwise the input, which names the queue of the reply.
unfoldable pub execute :
    ℕ → Provider → Execution → TaskStore → Result TaskError (Option Text) × TaskStore
unfolding execute_found lookup
execute id provider e s =
    if e.locked then execute_found id provider e s (lookup id s.tasks) else (returns none, s)
