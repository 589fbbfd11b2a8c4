-- ===== src/Evidence/Requests/Queue.antt =====
-- pipeline/src/evidence/evidence_request_service.cpp: the queue and the worker thread. An event is
-- a step of one thread: the mutex makes `enqueue_request` and the taking of a job one step each,
-- and the frame events may call the shared cache between any two of them. The condition variable
-- is left out: the worker moves whenever its wait would let it.
pub mod Order
pub mod Drain
pub mod Sound
use vms_engine.Common.{ℕ, Bool, true, false, Option, none, some, List, [], ◌∷◌, ◌++◌, if◌then◌else◌}
use vms_engine.Evidence.Cache.{SurfaceApi}
use vms_engine.Evidence.Cache.Owned.{Call, step}
use vms_engine.Evidence.Requests.{Job, ServiceConfig, World, Service, Ready}
use vms_engine.Evidence.Requests.Process.{process_job}

-- Where the worker thread is: not started, at its wait, with a job that it has taken, or returned
-- and not yet joined.
pub data Phase : Type 0 where
  absent : Phase
  waiting : Phase
  busy : Job → Phase
  returned : Phase

-- `answers` is the log of what was done.
pub record Queue : Type 0 where
  pub jobs : List Job
  pub stopping : Bool
  pub phase : Phase
  pub service : Service
  pub answers : List (Job × Option Ready)

unfoldable pub init : Service → Queue
init s = record { jobs = []; stopping = false; phase = absent; service = s; answers = [] }

-- `context` tells whether the encoder's context could be made.
unfoldable pub start_from : Queue → Bool → Phase → Queue
start_from q context absent = record q {
  stopping = false;
  phase = if context then waiting else returned;
}
start_from q context waiting = q
start_from q context (busy job) = q
start_from q context returned = q

unfoldable pub start : Queue → Bool → Queue
start q context = start_from q context q.phase

-- For a payload that was read.
unfoldable pub enqueue_request : Queue → Job → Queue
enqueue_request q job = record q { jobs = q.jobs ++ job ∷ [] }

unfoldable pub stop : Queue → Queue
stop q = record q { stopping = true }

-- The end of the call of `stop`.
unfoldable pub join_from : Queue → Phase → Queue
join_from q absent = q
join_from q waiting = q
join_from q (busy job) = q
join_from q returned = record q { phase = absent }

unfoldable pub join : Queue → Queue
join q = join_from q q.phase

-- The wait's predicate, then `stop_ && jobs_.empty()`.
unfoldable pub take_job : Queue → List Job → Queue
take_job q [] = if q.stopping then record q { phase = returned } else q
take_job q (job ∷ jobs) = record q { jobs = jobs; phase = busy job }

module _ (g : ServiceConfig) (w : World) where
  unfoldable pub work_from : Queue → Phase → Queue
  work_from q absent = q
  work_from q waiting = take_job q q.jobs
  work_from q (busy job) =
      let r = process_job g w q.service job in
      record q { phase = waiting; service = r.0; answers = q.answers ++ (job, r.1) ∷ [] }
  work_from q returned = q

  -- A step of `worker_loop`.
  unfoldable pub work : Queue → Queue
  work q = work_from q q.phase

pub data Event : Type 0 where
  starts : Bool → Event
  enqueues : Job → Event
  works : Event
  stops : Event
  joins : Event
  caches : Call → Event

unfoldable pub handle : SurfaceApi → ServiceConfig → World → Queue → Event → Queue
handle api g w q (starts context) = start q context
handle api g w q (enqueues job) = enqueue_request q job
handle api g w q works = work g w q
handle api g w q stops = stop q
handle api g w q joins = join q
handle api g w q (caches call) = record q {
  service = record q.service { cache = step api q.service.cache call };
}

unfoldable pub run : SurfaceApi → ServiceConfig → World → Queue → List Event → Queue
run api g w q [] = q
run api g w q (e ∷ es) = run api g w (handle api g w q e) es
