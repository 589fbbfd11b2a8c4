-- ===== src/Evidence/Requests/Queue/Sound.antt =====
-- The ledger and the frame cache under every interleaving of the threads.
use vms_engine.Common.{Bool, List, [], ◌∷◌, if_keep}
use vms_engine.Evidence.Cache.{SurfaceApi}
use vms_engine.Evidence.Cache.Owned.{step-IsSound}
use vms_engine.Evidence.Requests.{Job, ServiceConfig, World}
use vms_engine.Evidence.Requests.Kept.{IsWell, process_job-IsWell}
use vms_engine.Evidence.Requests.Queue.{
  Phase, absent, waiting, busy, returned, Queue, start_from, start, enqueue_request, stop,
  join_from, join, take_job, work_from, work, Event, starts, enqueues, works, stops, joins, caches,
  handle, run,
}

module _ (api : SurfaceApi) (g : ServiceConfig) (w : World) where
  start_from-IsWell :
      (q : Queue) (context : Bool) (p : Phase)
      → IsWell g q.service
      → IsWell g (start_from q context p).service
  unfolding start_from
  start_from-IsWell q context absent h = h
  start_from-IsWell q context waiting h = h
  start_from-IsWell q context (busy job) h = h
  start_from-IsWell q context returned h = h

  join_from-IsWell : (q : Queue) (p : Phase) → IsWell g q.service → IsWell g (join_from q p).service
  unfolding join_from
  join_from-IsWell q absent h = h
  join_from-IsWell q waiting h = h
  join_from-IsWell q (busy job) h = h
  join_from-IsWell q returned h = h

  take_job-IsWell :
      (q : Queue) (jobs : List Job) → IsWell g q.service → IsWell g (take_job q jobs).service
  unfolding take_job
  take_job-IsWell q [] h = if_keep (λ (x : Queue). IsWell g x.service) q.stopping _ _ h h
  take_job-IsWell q (job ∷ jobs) h = h

  work_from-IsWell :
      (q : Queue) (p : Phase) → IsWell g q.service → IsWell g (work_from g w q p).service
  unfolding work_from
  work_from-IsWell q absent h = h
  work_from-IsWell q waiting h = take_job-IsWell q q.jobs h
  work_from-IsWell q (busy job) h = process_job-IsWell g w q.service job h
  work_from-IsWell q returned h = h

  handle-IsWell :
      (q : Queue) (e : Event) → IsWell g q.service → IsWell g (handle api g w q e).service
  unfolding handle start join work enqueue_request stop
  handle-IsWell q (starts context) h = start_from-IsWell q context q.phase h
  handle-IsWell q (enqueues job) h = h
  handle-IsWell q works h = work_from-IsWell q q.phase h
  handle-IsWell q stops h = h
  handle-IsWell q joins h = join_from-IsWell q q.phase h
  handle-IsWell q (caches call) h = record {
    kept = h.kept;
    sound = step-IsSound api q.service.cache call h.sound;
  }

-- The ledger and the frame cache are in order after every interleaving of the worker, the callers
-- of `enqueue_request`, `start` and `stop`, and the calls of the frame events on the shared cache,
-- if they were in order before.
pub run-IsWell :
    (api : SurfaceApi) (g : ServiceConfig) (w : World) (q : Queue) (es : List Event)
    → IsWell g q.service
    → IsWell g (run api g w q es).service
unfolding run
run-IsWell api g w q [] h = h
run-IsWell api g w q (e ∷ es) h =
    run-IsWell api g w (handle api g w q e) es (handle-IsWell api g w q e h)
