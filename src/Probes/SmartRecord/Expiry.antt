-- ===== src/Probes/SmartRecord/Expiry.antt =====
-- Sessions whose end was never reported.
use vms_engine.Common.Map.{Map, find}
use vms_engine.Common.{
  ℕ, ◌≡◌, refl, ap, sym, ◌∙◌, subst, ltb, Option, none, some, [], ◌∷◌, nat_eq, if◌then◌else◌, arith,
  ◌+◌, ◌*◌, ◌<◌,
}
use vms_engine.Probes.SmartRecord.{
  Handler, SourceRecordingState, RecordingSession, is_overdue, keep_session, cleanup_states,
  cleanup_expired_sessions, second, session_grace_period_ns, clock_time_none,
}

abbrev expire : ℕ → Option SourceRecordingState → Option SourceRecordingState
expire now none = none
expire now (some state) =
    some (record state { active_session = keep_session now state.active_session })

find-cleanup_states :
    (now k : ℕ) (m : Map ℕ SourceRecordingState)
    → find k (cleanup_states now m) ≡ expire now (find k m)
unfolding cleanup_states find
find-cleanup_states now k [] = refl
find-cleanup_states now k ((i, s) ∷ m) = ground (arith, find-cleanup_states now k m)

-- The time from which on a session counts as lost.
abbrev pub deadline : RecordingSession → ℕ
deadline x = x.start_time + x.duration_sec * second + session_grace_period_ns

is_overdue-deadline :
    (now : ℕ) (x : RecordingSession)
    → deadline x < clock_time_none
    → is_overdue now x ≡ ltb (deadline x) now
unfolding is_overdue
is_overdue-deadline now x h = ground arith

keep_session-deadline :
    (now : ℕ) (o : Option RecordingSession) (x : RecordingSession)
    → o ≡ some x
    → deadline x < clock_time_none
    → keep_session now o ≡ (if ltb (deadline x) now then none else some x)
unfolding keep_session
keep_session-deadline now none x e h = absurd (cc)
keep_session-deadline now (some y) x e h =
    let same : y ≡ x = cc in
    subst
      (λ z.
        (if is_overdue now z then none else some z)
        ≡ (if ltb (deadline x) now then none else some x))
      (sym same) (ap (λ b. if b then none else some x) (is_overdue-deadline now x h))

-- A session whose deadline is within the range of the clock is dropped if the time is past its
-- start, its duration and the grace period, and is kept as it is otherwise; the rest of the
-- source's state stays.
pub cleanup_expired_sessions_lem :
    (h : Handler) (now k : ℕ) (s : SourceRecordingState) (x : RecordingSession)
    → find k h.source_states ≡ some s
    → s.active_session ≡ some x
    → deadline x < clock_time_none
    → find k (cleanup_expired_sessions h now).source_states
      ≡ some (record s { active_session = if ltb (deadline x) now then none else some x })
unfolding cleanup_expired_sessions
cleanup_expired_sessions_lem h now k s x e f d =
    find-cleanup_states now k h.source_states
    ∙ ap (expire now) e
    ∙ ap (λ o. some (record s { active_session = o }))
        (keep_session-deadline now s.active_session x f d)
