-- ===== src/ModelTasks/Examples.antt =====
-- Runs of the tasks, and an instance of the bound on the calls of a handler.
use home_budget_pipeline.Prelude.{◌≤◌, ◌≡◌, refl, true, false, some, [], ◌∷◌}
use home_budget_pipeline.Prelude.Text.{codes}
use home_budget_pipeline.Prelude.Table.{lookup, upsert, update}
use home_budget_pipeline.Prelude.Result.{returns, raises}
use home_budget_pipeline.ModelTasks.{
  qwen, openai, runtime_error, unknown_task, TaskStore, Execution, add_found, add_task,
  same_provider, attempt_task, run_task, run_unfinished, execute_found, execute,
}
use home_budget_pipeline.ModelTasks.Runs.{
  calls_of, empty_store, nothing_added, added, executed, handler_called_twice,
}

abbrev answers : Execution
answers = record {
  locked = true;
  started = 10;
  finished = 20;
  handler = λ input. returns (codes "milk");
  dies = false;
}

abbrev dies_early : Execution
dies_early = record answers { dies = true }

abbrev one_task : TaskStore
one_task = (add_task 5 qwen (codes "{}") 900 empty_store).1

abbrev after_deaths : TaskStore
after_deaths = (execute 5 qwen dies_early (execute 5 qwen dies_early one_task).1).1

-- Two workers died: the third one does not call the handler, and the task ends with an error.
gives_up : (execute 5 qwen answers after_deaths).1 ≡ record {
  tasks =
      (
        5,
        record {
          provider = qwen;
          input = codes "{}";
          result = some runtime_error;
          attempts = 3;
          deadline = 900;
        },
      )
      ∷ [];
  handled = 5 ∷ 5 ∷ [];
}
unfolding execute execute_found run_unfinished run_task attempt_task add_task add_found
    same_provider lookup upsert update
gives_up = refl

wrong_worker : (execute 5 openai answers one_task).0 ≡ raises unknown_task
unfolding execute execute_found run_unfinished run_task attempt_task add_task add_found
    same_provider lookup upsert update
wrong_worker = refl

handler_called_twice_example : calls_of 5 (execute 5 qwen answers after_deaths).1.handled ≤ 2
handler_called_twice_example =
    handler_called_twice
      (executed 5 qwen answers (
        executed 5 qwen dies_early
          (executed 5 qwen dies_early (added 5 qwen (codes "{}") 900 nothing_added))))
      5
