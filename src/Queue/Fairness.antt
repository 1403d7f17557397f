-- ===== src/Queue/Fairness.antt =====
-- When a waiting job of the queue runs.
use trade_gate.Prelude.{
  ℕ, suc, length, ◌≡◌, refl, ap, ◌∙◌, false, some, List, [], ◌∷◌, ◌++◌, arith, any, inl, inr,
  Bool-cases,
}
use mathlib.Core.List.{append_assoc}
use trade_gate.Queue.{
  Job, BrainQueue, QueueEvent, enqueues, progresses, settles, has_key, queue_run,
}
use trade_gate.Queue.Laws.{
  IsValid, jobs_of, abs_enqueue, abs_step, abs_run, queue_run-IsValid, queue_run-jobs_of,
}

-- How many jobs the events end.
abbrev pub settled : List QueueEvent → ℕ
settled [] = 0
settled (settles ∷ es) = suc (settled es)
settled (_ ∷ es) = settled es

-- No event puts a job at the head of the pending ones.
abbrev pub IsFair : List QueueEvent → Type 0
IsFair [] = Unit
IsFair (enqueues job priority ∷ es) = (priority ≡ false) × IsFair es
IsFair (_ ∷ es) = IsFair es

abs_enqueue_last :
    (front : List Job) (job : Job) (back : List Job) (new : Job)
    → abs_enqueue new false (front ++ job ∷ back) ≡ front ++ job ∷ (back ++ new ∷ [])
unfolding abs_enqueue
abs_enqueue_last [] job back new = refl
abs_enqueue_last (j ∷ front) job back new = ap (◌∷◌ j) (append_assoc front (job ∷ back) (new ∷ []))

abs_step_last :
    (front : List Job) (job : Job) (back : List Job) (new : Job)
    → (rest : List Job) × (abs_step (front ++ job ∷ back) (enqueues new false)
        ≡ front ++ job ∷ rest)
unfolding abs_step
abs_step_last front job back new = elim (Bool-cases (any (has_key new.key) (front ++ job ∷ back))) [
  | inl busy ↦ (back, rw busy)
  | inr fresh ↦ (back ++ new ∷ [], rw fresh (abs_enqueue_last front job back new))
]

abs_run_reaches :
    (front : List Job) (job : Job) (back : List Job) (es : List QueueEvent)
    → IsFair es
    → settled es ≡ length front
    → (rest : List Job) × (abs_run (front ++ job ∷ back) es ≡ job ∷ rest)
unfolding abs_step
abs_run_reaches [] job back [] f h = (back, refl)
abs_run_reaches (j ∷ front) job back [] f h = absurd (omega arith)
abs_run_reaches front job back (enqueues new priority ∷ es) f h =
    let (rest, e) = abs_step_last front job back new in
    rw (f.0, e) (abs_run_reaches front job rest es f.1 h)
abs_run_reaches front job back (progresses step id ∷ es) f h = abs_run_reaches front job back es f h
abs_run_reaches [] job back (settles ∷ es) f h = absurd (omega arith)
abs_run_reaches (j ∷ front) job back (settles ∷ es) f h =
    abs_run_reaches front job back es f (omega arith)

line_head :
    (q : BrainQueue) (job : Job) (rest : List Job)
    → IsValid q
    → jobs_of q ≡ job ∷ rest
    → q.running ≡ some job
line_head q job rest v e = ground arith

-- In a valid queue, a job with `n` jobs before it runs when exactly `n` jobs have ended, if no job
-- was enqueued with priority.
pub queue_run_reaches :
    (q : BrainQueue) (front : List Job) (job : Job) (back : List Job) (es : List QueueEvent)
    → IsValid q
    → jobs_of q ≡ front ++ job ∷ back
    → IsFair es
    → settled es ≡ length front
    → (queue_run q es).running ≡ some job
queue_run_reaches q front job back es v e f h =
    let (rest, r) = abs_run_reaches front job back es f h in
    line_head (queue_run q es) job rest (queue_run-IsValid q es v)
      (queue_run-jobs_of q es v ∙ ap (λ jobs. abs_run jobs es) e ∙ r)
