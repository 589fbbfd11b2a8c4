-- ===== src/Evidence/Requests/Queue/Order.antt =====
-- Jobs are done in the order in which they came, each once, and none is lost.
use mathlib.Core.List.{append_assoc, append-nil}
use vms_engine.Common.{
  ◌≡◌, refl, sym, ap, ◌∙◌, Bool, true, false, Option, List, [], ◌∷◌, ◌++◌, if_keep,
}
use vms_engine.Evidence.Cache.{SurfaceApi}
use vms_engine.Evidence.Requests.{Job, ServiceConfig, World, Service, Ready}
use vms_engine.Evidence.Requests.Queue.{
  Phase, absent, waiting, busy, returned, Queue, init, start_from, start, enqueue_request, stop,
  join_from, join, take_job, work_from, work, Event, starts, enqueues, works, stops, joins, caches,
  handle, run,
}

abbrev pub in_hand : Phase → List Job
in_hand absent = []
in_hand waiting = []
in_hand (busy job) = job ∷ []
in_hand returned = []

unfoldable pub answered : List (Job × Option Ready) → List Job
answered [] = []
answered (a ∷ rest) = a.0 ∷ answered rest

-- The jobs that the events bring, in their order.
unfoldable pub brought : List Event → List Job
brought [] = []
brought (starts context ∷ es) = brought es
brought (enqueues job ∷ es) = job ∷ brought es
brought (works ∷ es) = brought es
brought (stops ∷ es) = brought es
brought (joins ∷ es) = brought es
brought (caches call ∷ es) = brought es

-- The jobs that the service has ever had: done, in hand, and waiting.
unfoldable pub all_jobs : Queue → List Job
all_jobs q = answered q.answers ++ (in_hand q.phase ++ q.jobs)

answered-append :
    (log : List (Job × Option Ready)) (a : Job × Option Ready)
    → answered (log ++ a ∷ []) ≡ answered log ++ a.0 ∷ []
unfolding answered
answered-append [] a = refl
answered-append (b ∷ log) a = ap (λ l. b.0 ∷ l) (answered-append log a)

all_jobs-start_from :
    (q : Queue) (context : Bool) (p : Phase)
    → q.phase ≡ p
    → all_jobs (start_from q context p) ≡ all_jobs q
unfolding start_from all_jobs
all_jobs-start_from q true absent e = rw e refl
all_jobs-start_from q false absent e = rw e refl
all_jobs-start_from q context waiting e = refl
all_jobs-start_from q context (busy job) e = refl
all_jobs-start_from q context returned e = refl

all_jobs-join_from : (q : Queue) (p : Phase) → q.phase ≡ p → all_jobs (join_from q p) ≡ all_jobs q
unfolding join_from all_jobs
all_jobs-join_from q absent e = refl
all_jobs-join_from q waiting e = refl
all_jobs-join_from q (busy job) e = refl
all_jobs-join_from q returned e = rw e refl

module _ (g : ServiceConfig) (w : World) where
  all_jobs-take_job :
      (q : Queue) (js : List Job)
      → q.phase ≡ waiting
      → q.jobs ≡ js
      → all_jobs (take_job q js) ≡ all_jobs q
  unfolding take_job all_jobs
  all_jobs-take_job q [] e f =
      if_keep (λ (x : Queue). all_jobs x ≡ all_jobs q) q.stopping _ _ (rw e refl) refl
  all_jobs-take_job q (job ∷ js) e f = rw (e, f) refl

  all_jobs-work_from :
      (q : Queue) (p : Phase) → q.phase ≡ p → all_jobs (work_from g w q p) ≡ all_jobs q
  unfolding work_from all_jobs
  all_jobs-work_from q absent e = refl
  all_jobs-work_from q waiting e = all_jobs-take_job q q.jobs e refl
  all_jobs-work_from q (busy job) e =
      rw (e, answered-append) (append_assoc (answered q.answers) (job ∷ []) q.jobs)
  all_jobs-work_from q returned e = refl

  pub all_jobs-work : (q : Queue) → all_jobs (work g w q) ≡ all_jobs q
  unfolding work
  all_jobs-work q = all_jobs-work_from q q.phase refl

module _ (api : SurfaceApi) (g : ServiceConfig) (w : World) where
  all_jobs-handle :
      (q : Queue) (e : Event) → all_jobs (handle api g w q e) ≡ all_jobs q ++ brought (e ∷ [])
  unfolding handle start join enqueue_request stop all_jobs brought
  all_jobs-handle q (starts context) =
      all_jobs-start_from q context q.phase refl ∙ sym (append-nil _)
  all_jobs-handle q (enqueues job) =
      ap (λ l. answered q.answers ++ l) (sym (append_assoc (in_hand q.phase) q.jobs (job ∷ [])))
      ∙ sym (append_assoc (answered q.answers) (in_hand q.phase ++ q.jobs) (job ∷ []))
  all_jobs-handle q works = all_jobs-work g w q ∙ sym (append-nil _)
  all_jobs-handle q stops = sym (append-nil _)
  all_jobs-handle q joins = all_jobs-join_from q q.phase refl ∙ sym (append-nil _)
  all_jobs-handle q (caches call) = sym (append-nil _)

  brought-cons : (e : Event) (es : List Event) → brought (e ∷ es) ≡ brought (e ∷ []) ++ brought es
  unfolding brought
  brought-cons (starts context) es = refl
  brought-cons (enqueues job) es = refl
  brought-cons works es = refl
  brought-cons stops es = refl
  brought-cons joins es = refl
  brought-cons (caches call) es = refl

  all_jobs-run :
      (q : Queue) (es : List Event) → all_jobs (run api g w q es) ≡ all_jobs q ++ brought es
  unfolding run brought
  all_jobs-run q [] = sym (append-nil _)
  all_jobs-run q (e ∷ es) =
      all_jobs-run (handle api g w q e) es
      ∙ ap (λ l. l ++ brought es) (all_jobs-handle q e)
      ∙ append_assoc (all_jobs q) (brought (e ∷ [])) (brought es)
      ∙ ap (λ l. all_jobs q ++ l) (sym (brought-cons e es))

-- Whatever the threads do, and in whatever order: the jobs that were answered, then the one in
-- the worker's hand, then those in the queue are exactly the jobs that came, in their order.
pub run-init_fifo :
    (api : SurfaceApi) (g : ServiceConfig) (w : World) (s : Service) (es : List Event)
    → all_jobs (run api g w (init s) es) ≡ brought es
unfolding init all_jobs answered
run-init_fifo api g w s es = all_jobs-run api g w (init s) es
