-- ===== src/Queue/Laws.antt =====
-- The queue keeps its keys unique and works while it has jobs, and it is the abstract queue.
use trade_gate.Prelude.{
  ◌≡◌, refl, sym, ap, ◌∙◌, subst, Bool, true, false, Option, none, some, List, [], ◌∷◌, ◌++◌, arith,
  beq_comm, string_eq, if◌then◌else◌, any, any-append, ◌↔◌,
}
use trade_gate.Queue.{
  Job, BrainQueue, QueueEvent, enqueues, progresses, settles, empty, has_key, enqueue, queue_step,
  queue_run,
}

-- Each key is new among the jobs behind it.
abbrev pub HasUniqueJobs : List Job → Type 0
HasUniqueJobs [] = Unit
HasUniqueJobs (j ∷ jobs) = (any (has_key j.key) jobs ≡ false) × HasUniqueJobs jobs

-- The running job and the pending ones, in the order in which they run.
abbrev pub line : Option Job → List Job → List Job
line none pending = pending
line (some job) pending = job ∷ pending

-- No two jobs in the queue share a key, and jobs wait only behind a running one.
pub record IsValid (q : BrainQueue) : Type 0 where
  pub unique : HasUniqueJobs (line q.running q.pending)
  pub working : q.running ≡ none → q.pending ≡ []

has_key_sym : (j k : Job) → has_key j.key k ≡ has_key k.key j
unfolding has_key
has_key_sym j k = beq_comm k.key j.key

snoc-HasUniqueJobs :
    (job : Job) (jobs : List Job)
    → any (has_key job.key) jobs ≡ false
    → HasUniqueJobs jobs
    → HasUniqueJobs (jobs ++ job ∷ [])
snoc-HasUniqueJobs job [] h u = (refl, tt)
snoc-HasUniqueJobs job (j ∷ jobs) h u = ground (
  arith,
  snoc-HasUniqueJobs job jobs,
  any-append (has_key j.key) jobs (job ∷ []),
  has_key_sym job j,
)

pub empty-IsValid : IsValid empty
unfolding empty
empty-IsValid = record { unique = tt; working = λ e. refl }

-- The queue as the list of its jobs: the first one runs.
abbrev pub jobs_of : BrainQueue → List Job
jobs_of q = line q.running q.pending

-- Behind the first job, or at the end.
unfoldable pub abs_enqueue : Job → Bool → List Job → List Job
abs_enqueue job priority [] = job ∷ []
abs_enqueue job true (r ∷ jobs) = r ∷ job ∷ jobs
abs_enqueue job false (r ∷ jobs) = r ∷ jobs ++ job ∷ []

-- The abstract queue: a list of jobs with distinct keys.
unfoldable pub abs_step : List Job → QueueEvent → List Job
abs_step jobs (enqueues job priority) =
    if any (has_key job.key) jobs then jobs else abs_enqueue job priority jobs
abs_step jobs (progresses step episode_id) = jobs
abs_step [] settles = []
abs_step (j ∷ jobs) settles = jobs

enqueue-jobs_of :
    (q : BrainQueue) (job : Job) (priority : Bool)
    → IsValid q
    → jobs_of (enqueue job priority q).0 ≡ abs_step (jobs_of q) (enqueues job priority)
unfolding enqueue abs_step abs_enqueue
enqueue-jobs_of q job priority v = ground arith

-- Each event changes the list of jobs as the abstract queue says.
pub queue_step-jobs_of :
    (q : BrainQueue) (e : QueueEvent)
    → IsValid q
    → jobs_of (queue_step q e) ≡ abs_step (jobs_of q) e
unfolding queue_step abs_step
queue_step-jobs_of q (enqueues job priority) v = enqueue-jobs_of q job priority v
queue_step-jobs_of q (progresses step episode_id) v = refl
queue_step-jobs_of q settles v = ground arith

queue_step-working :
    (q : BrainQueue) (e : QueueEvent)
    → (q.running ≡ none → q.pending ≡ [])
    → (queue_step q e).running ≡ none
    → (queue_step q e).pending ≡ []
unfolding queue_step
queue_step-working q (enqueues job priority) v = ground arith
queue_step-working q (progresses step episode_id) v = v
queue_step-working q settles v = ground arith

abs_enqueue-HasUniqueJobs :
    (job : Job) (priority : Bool) (jobs : List Job)
    → any (has_key job.key) jobs ≡ false
    → HasUniqueJobs jobs
    → HasUniqueJobs (abs_enqueue job priority jobs)
unfolding abs_enqueue
abs_enqueue-HasUniqueJobs job priority [] h u = (refl, tt)
abs_enqueue-HasUniqueJobs job true (r ∷ jobs) h u = ground (arith, has_key_sym job r)
abs_enqueue-HasUniqueJobs job false (r ∷ jobs) h u = snoc-HasUniqueJobs job (r ∷ jobs) h u

abs_step-HasUniqueJobs :
    (jobs : List Job) (e : QueueEvent) → HasUniqueJobs jobs → HasUniqueJobs (abs_step jobs e)
unfolding abs_step
abs_step-HasUniqueJobs jobs (enqueues job priority) u =
    ground (arith, abs_enqueue-HasUniqueJobs job priority jobs)
abs_step-HasUniqueJobs jobs (progresses step episode_id) u = u
abs_step-HasUniqueJobs [] settles u = tt
abs_step-HasUniqueJobs (j ∷ jobs) settles u = u.1

queue_step-IsValid : (q : BrainQueue) (e : QueueEvent) → IsValid q → IsValid (queue_step q e)
queue_step-IsValid q e v = record {
  unique =
      subst HasUniqueJobs (sym (queue_step-jobs_of q e v))
        (abs_step-HasUniqueJobs (jobs_of q) e v.unique);
  working = queue_step-working q e v.working;
}

-- From a valid queue, after any events, no two jobs of the queue share a key, and nothing waits
-- while nothing runs.
pub queue_run-IsValid :
    (q : BrainQueue) (es : List QueueEvent) → IsValid q → IsValid (queue_run q es)
unfolding queue_run
queue_run-IsValid q [] v = v
queue_run-IsValid q (e ∷ es) v = queue_run-IsValid (queue_step q e) es (queue_step-IsValid q e v)

abbrev pub abs_run : List Job → List QueueEvent → List Job
abs_run jobs [] = jobs
abs_run jobs (e ∷ es) = abs_run (abs_step jobs e) es

-- From a valid queue, any events give the list of jobs that they give the abstract queue, a list
-- whose head runs.
pub queue_run-jobs_of :
    (q : BrainQueue) (es : List QueueEvent)
    → IsValid q
    → jobs_of (queue_run q es) ≡ abs_run (jobs_of q) es
unfolding queue_run
queue_run-jobs_of q [] v = refl
queue_run-jobs_of q (e ∷ es) v =
    queue_run-jobs_of (queue_step q e) es (queue_step-IsValid q e v)
    ∙ ap (λ jobs. abs_run jobs es) (queue_step-jobs_of q e v)

-- A key that is in the queue is refused, and any other job is taken.
pub enqueue_iff :
    (q : BrainQueue) (job : Job) (priority : Bool)
    → ((enqueue job priority q).1 ≡ false) ↔ (any (has_key job.key) (jobs_of q) ≡ true)
unfolding enqueue
enqueue_iff q job priority = ground arith
