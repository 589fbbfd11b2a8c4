-- ===== src/Probes/SmartRecord/Limit.antt =====
-- The number of recordings that run at a time: the count, and what one change does to it.
pub mod Runs
use vms_engine.Common.Map.{Map, find, insert, erase, find-insert, find-insert_self}
use vms_engine.Common.{
  ℕ, zero, suc, ◌+◌, ◌≤◌, ◌≡◌, refl, sym, ap, subst, Bool, true, false, ◌&&◌, not, Option, none,
  some, List, [], ◌∷◌, Text, nat_eq, nat_beq_iff, ◌==◌, arith, ltb, if◌then◌else◌, if_keep,
  if_split, ℤ, pos, ◌≤ℤ◌, ltb_ℤ, leb_ℤ, Option-cases, inl, inr,
}
use vms_engine.Probes.SmartRecord.{
  Handler, Elements, SourceRecordingState, RecordingSession, new_state, state_or_new, state_of,
  set_state, is_active, count_active, count_active_recordings, can_start_recording, start_recording,
  start_on, adopt, rediscover, find_cached, find_nvurisrcbin, keep_session, is_overdue,
  cleanup_states, cleanup_expired_sessions,
}
use vms_engine.Probes.SmartRecord.Batch.{
  FrameMeta, start_if, process_objects, process_frames, process_batch, on_buffer, clear_found,
  clear_for, clear_session, on_recording_done,
}

-- Writing one state changes the count by that state alone.
pub count-insert :
    (k : ℕ) (v : SourceRecordingState) (m : Map ℕ SourceRecordingState)
    → count_active (insert k v m) + is_active (state_or_new (find k m))
      ≡ count_active m + is_active v
unfolding find insert count_active
count-insert k v [] = ground arith
count-insert k v ((i, w) ∷ m) = ground (arith, nat_beq_iff i k, count-insert k v m)

-- The same for the optional session.
abbrev session_count : Option RecordingSession → ℕ
session_count o = is_active (record new_state { active_session = o })

session_count-state :
    (s : SourceRecordingState) (o : Option RecordingSession)
    → s.active_session ≡ o
    → is_active s ≡ session_count o
session_count-state s none e = rw (e)
session_count-state s (some x) e = rw (e)

session_count-keep :
    (now : ℕ) (o : Option RecordingSession) → session_count (keep_session now o) ≤ session_count o
unfolding keep_session
session_count-keep now none = omega arith
session_count-keep now (some x) =
    if_keep (λ (o : Option RecordingSession). session_count o ≤ 1) (is_overdue now x) _ _
      (omega arith) (omega arith)

keep_session-at_most :
    (now : ℕ) (s : SourceRecordingState)
    → is_active (record s { active_session = keep_session now s.active_session }) ≤ is_active s
keep_session-at_most now s = ground (
  arith,
  session_count-keep now s.active_session,
  session_count-state s s.active_session refl,
  session_count-state (record s { active_session = keep_session now s.active_session }) _ refl,
)

-- Expiry starts nothing.
pub count-cleanup :
    (now : ℕ) (m : Map ℕ SourceRecordingState)
    → count_active (cleanup_states now m) ≤ count_active m
unfolding cleanup_states count_active
count-cleanup now [] = omega arith
count-cleanup now ((i, s) ∷ m) = ground (arith, keep_session-at_most now s, count-cleanup now m)

-- Where there is a limit, no more recordings run than it says.
pub record InLimit (h : Handler) : Type 0 where
  pub within :
      pos 1 ≤ℤ h.max_concurrent_recordings
      → count_active_recordings h ≤ℤ h.max_concurrent_recordings

-- The source records nothing, and one more recording is within the limit.
pub record Room (h : Handler) (k : ℕ) : Type 0 where
  pub idle : is_active (state_of h k) ≡ 0
  pub room :
      pos 1 ≤ℤ h.max_concurrent_recordings
      → pos (count_active h.source_states + 1) ≤ℤ h.max_concurrent_recordings

pub InLimit-set :
    (h : Handler) (k : ℕ) (v : SourceRecordingState)
    → is_active v ≤ is_active (state_of h k)
    → InLimit h
    → InLimit (set_state h k v)
unfolding count_active_recordings
InLimit-set h k v e l = record {
  within = λ p. ground (arith, count-insert k v h.source_states, l.within p);
}

state_of-set : (h : Handler) (k : ℕ) (v : SourceRecordingState) → state_of (set_state h k v) k ≡ v
state_of-set h k v = ap state_or_new (find-insert_self k v h.source_states)

pub Room-set :
    (h : Handler) (k : ℕ) (v : SourceRecordingState)
    → is_active v ≡ 0
    → Room h k
    → Room (set_state h k v) k
Room-set h k v e r = record {
  idle = subst (λ s. is_active s ≡ 0) (sym (state_of-set h k v)) e;
  room = λ p. ground (arith, count-insert k v h.source_states, r.room p, r.idle);
}

pub InLimit-start :
    (h : Handler) (k : ℕ) (v : SourceRecordingState)
    → is_active v ≤ 1
    → Room h k
    → InLimit (set_state h k v)
unfolding count_active_recordings
InLimit-start h k v e r = record {
  within = λ p. ground (arith, count-insert k v h.source_states, r.room p, r.idle);
}
