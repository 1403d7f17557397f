-- ===== src/Queue.antt =====
-- packages/gateway/src/demo/queue.ts: `BrainQueue`, one brain call at a time. A call of
-- `enqueue` or the end of a job's `run()` is one step; the synchronous part of `drain` behind it
-- belongs to the step. What `run()` itself does, and whether it throws, is outside: the `catch`
-- ignores it. The views that `onChange` receives are listed, oldest first.

mod Examples
pub mod Laws
pub mod Fairness
use trade_gate.Prelude.{
  ℕ, Bool, true, false, ◌||◌, Option, none, some, String, List, [], ◌∷◌, ◌++◌, ◌==◌, string_eq,
  if◌then◌else◌, any, length,
}

pub data JobKind : Type 0 where
  scan review info chat manual : JobKind

-- `run` is not kept: nothing in the queue depends on what it does.
pub record Job : Type 0 where
  pub key : String
  pub kind : JobKind
  pub symbol : Option String

pub record RunningView : Type 0 where
  pub kind : JobKind
  pub symbol : Option String
  pub step : Option String
  pub episode_id : Option String

pub record QueueView : Type 0 where
  pub pending : ℕ
  pub running : Option RunningView

pub record BrainQueue : Type 0 where
  pub pending : List Job
  pub running : Option Job
  pub step : Option String
  pub episode_id : Option String
  pub views : List QueueView

unfoldable pub empty : BrainQueue
empty = record { pending = []; running = none; step = none; episode_id = none; views = [] }

unfoldable pub view : BrainQueue → QueueView
view q = record {
  pending = length q.pending;
  running = elim q.running [
    | none ↦ none
    | some job ↦
        some (record {
          kind = job.kind;
          symbol = job.symbol;
          step = q.step;
          episode_id = q.episode_id;
        })
  ];
}

-- `this.onChange(this.view())`
unfoldable pub on_change : BrainQueue → BrainQueue
unfolding view
on_change q = record q { views = q.views ++ view q ∷ [] }

unfoldable pub progress : Option String → Option String → BrainQueue → BrainQueue
unfolding on_change
progress step episode_id q = on_change (record q {
  step = step;
  episode_id = elim episode_id [
    | none ↦ q.episode_id
    | some id ↦ if id == "" then q.episode_id else some id
  ];
})

-- `drain` with nothing running, by the pending jobs.
unfoldable pub start_next : List Job → BrainQueue → BrainQueue
unfolding on_change
start_next [] q = q
start_next (job ∷ rest) q =
    on_change (record q { pending = rest; running = some job; step = none; episode_id = none })

-- `drain` up to its `await`.
unfoldable pub drain : BrainQueue → BrainQueue
unfolding start_next
drain q = elim q.running [ some job ↦ q | none ↦ start_next q.pending q ]

unfoldable pub has_key : String → Job → Bool
has_key key job = job.key == key

unfoldable pub is_busy : String → BrainQueue → Bool
unfolding has_key
is_busy key q = elim q.running [
  | some job ↦ has_key key job || any (has_key key) q.pending
  | none ↦ any (has_key key) q.pending
]

-- The job's own test is the body of `isBusy` at its key.
unfoldable pub enqueue : Job → Bool → BrainQueue → BrainQueue × Bool
unfolding is_busy drain on_change
enqueue job priority q = if is_busy job.key q then (q, false) else (
  drain (
      on_change
        (record q { pending = if priority then job ∷ q.pending else q.pending ++ job ∷ [] })),
  true,
)

-- The `finally` of `drain` when the running job's promise settles.
unfoldable pub settle : BrainQueue → BrainQueue
unfolding drain on_change
settle q = drain (on_change (record q { running = none; step = none; episode_id = none }))

-- What the outside does to the queue: nothing else changes it.
pub data QueueEvent : Type 0 where
  enqueues : Job → Bool → QueueEvent
  progresses : Option String → Option String → QueueEvent
  settles : QueueEvent

-- Only a running job reports progress or settles.
unfoldable pub queue_step : BrainQueue → QueueEvent → BrainQueue
unfolding enqueue progress settle
queue_step q (enqueues job priority) = (enqueue job priority q).0
queue_step q (progresses step episode_id) = progress step episode_id q
queue_step q settles = elim q.running [ none ↦ q | some job ↦ settle q ]

unfoldable pub queue_run : BrainQueue → List QueueEvent → BrainQueue
unfolding queue_step
queue_run q [] = q
queue_run q (e ∷ es) = queue_run (queue_step q e) es
