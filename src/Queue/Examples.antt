-- ===== src/Queue/Examples.antt =====
-- The theorems on queue.ts at a queue with a running job and two pending ones.
use trade_gate.Prelude.{◌≡◌, refl, true, false, some, String, List, [], ◌∷◌}
use trade_gate.Queue.{
  scan, Job, BrainQueue, QueueEvent, enqueues, settles, empty, queue_step, queue_run,
}
use trade_gate.Queue.Laws.{
  IsValid, empty-IsValid, jobs_of, abs_step, abs_run, queue_step-jobs_of, queue_run-IsValid,
  queue_run-jobs_of,
}
use trade_gate.Queue.Fairness.{queue_run_reaches}

abbrev job : String → Job
job key = record { key = key; kind = scan; symbol = some key }

abbrev filling : List QueueEvent
filling = enqueues (job "a") false ∷ enqueues (job "b") false ∷ enqueues (job "c") true ∷ []

abbrev busy : BrainQueue
busy = queue_run empty filling

busy-jobs_of : jobs_of busy ≡ job "a" ∷ job "c" ∷ job "b" ∷ []
unfolding queue_run empty
busy-jobs_of = refl

busy-IsValid : IsValid busy
busy-IsValid = queue_run-IsValid empty filling empty-IsValid

queue_step-jobs_of_example : jobs_of (queue_step busy settles) ≡ abs_step (jobs_of busy) settles
queue_step-jobs_of_example = queue_step-jobs_of busy settles busy-IsValid

queue_run-IsValid_example : IsValid (queue_run busy (settles ∷ enqueues (job "c") false ∷ []))
queue_run-IsValid_example =
    queue_run-IsValid busy (settles ∷ enqueues (job "c") false ∷ []) busy-IsValid

queue_run-jobs_of_example :
    jobs_of (queue_run busy (settles ∷ settles ∷ []))
    ≡ abs_run (jobs_of busy) (settles ∷ settles ∷ [])
queue_run-jobs_of_example = queue_run-jobs_of busy (settles ∷ settles ∷ []) busy-IsValid

queue_run_reaches_example :
    (queue_run busy (settles ∷ enqueues (job "d") false ∷ settles ∷ [])).running ≡ some (job "b")
queue_run_reaches_example =
    queue_run_reaches busy (job "a" ∷ job "c" ∷ []) (job "b") []
      (settles ∷ enqueues (job "d") false ∷ settles ∷ []) busy-IsValid busy-jobs_of (refl, tt) refl
