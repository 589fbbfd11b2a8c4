-- ===== src/Evidence/Requests/Queue/Drain.antt =====
-- After `stop` the worker does all that is in the queue and then returns.
use vms_engine.Common.{ℕ, zero, suc, ◌≡◌, Bool, true, false, List, [], ◌∷◌}
use vms_engine.Evidence.Requests.{Job, ServiceConfig, World}
use vms_engine.Evidence.Requests.Queue.{Phase, absent, waiting, busy, returned, Queue, work}
use vms_engine.Evidence.Requests.Queue.Order.{answered}

-- `n` steps of the worker.
unfoldable pub work_times : ServiceConfig → World → ℕ → Queue → Queue
work_times g w zero q = q
work_times g w (suc n) q = work_times g w n (work g w q)

unfoldable pub is_running : Phase → Bool
is_running absent = false
is_running waiting = true
is_running (busy job) = true
is_running returned = false

-- The number of steps that the queue takes.
unfoldable steps : List Job → ℕ
steps [] = 1
steps (job ∷ jobs) = suc (suc (steps jobs))

-- The worker has returned with all of `jobs` answered and nothing left.
pub record IsDrained (jobs : List Job) (q : Queue) : Type 0 where
  pub ended : q.phase ≡ returned
  pub empty : q.jobs ≡ []
  pub all : answered q.answers ≡ jobs

-- At the wait, with `left` in the queue and told to stop.
record IsStopping (left : List Job) (q : Queue) : Type 0 where
  phase : q.phase ≡ waiting
  jobs : q.jobs ≡ left
  stopping : q.stopping ≡ true
