-- ===== src/Probes/SmartRecord/Interval.antt =====
-- The interval between the recordings of one source.
use vms_engine.Common.Map.{find, erase, find-insert_self}
use vms_engine.Common.{
  ℕ, ◌-◌, ◌*◌, ◌<◌, ◌≤◌, ◌≡◌, refl, sym, ap, ap₂, ◌∙◌, subst, Bool, true, false, ◌&&◌, ◌||◌, not,
  Option, none, some, nat_eq, ◌==◌, arith, ltb, if◌then◌else◌, if_keep, if_split, pos, ◌≤ℤ◌, ltb_ℤ,
  leb_ℤ, to_unsigned,
}
use vms_engine.Probes.SmartRecord.{
  Handler, Elements, SourceRecordingState, state_or_new, state_of, set_state, is_active, seconds_ns,
  clock_sub, clock_time_none, count_active_recordings, can_start_recording, start_recording,
  start_on, adopt, rediscover, find_cached, second, u64, find_nvurisrcbin,
}
use vms_engine.Probes.SmartRecord.Batch.{clear_found, clear_for, clear_session}

-- The handler waits `p` seconds of pre-event time and `q` seconds between recordings, and has no
-- limit of recordings.
pub record IsConfigured (p q : ℕ) (h : Handler) : Type 0 where
  pub pre : h.pre_event_sec ≡ pos p
  pub interval : h.min_interval_sec ≡ pos q
  pub unlimited : h.max_concurrent_recordings ≤ℤ pos 0

-- The same for the handler of a lookup.
record LooksUp (p q : ℕ) (r : Option ℕ × Handler) : Type 0 where
  configured : IsConfigured p q r.1

kept :
    (p q : ℕ) (o : Option ℕ) (h m : Handler)
    → IsConfigured p q h
    → m.pre_event_sec ≡ h.pre_event_sec
    → m.min_interval_sec ≡ h.min_interval_sec
    → m.max_concurrent_recordings ≡ h.max_concurrent_recordings
    → LooksUp p q (o, m)
kept p q o h m c e f g = record {
  configured = record {
    pre = e ∙ c.pre;
    interval = f ∙ c.interval;
    unlimited = subst (λ n. n ≤ℤ pos 0) (sym g) c.unlimited;
  };
}

adopt-LooksUp :
    (p q : ℕ) (g : Elements) (h : Handler) (k : ℕ) (o : Option ℕ)
    → IsConfigured p q h
    → LooksUp p q (adopt g h k o)
unfolding adopt
adopt-LooksUp p q g h k none c = record { configured = c }
adopt-LooksUp p q g h k (some e) c = kept p q (some e) h _ c refl refl refl

rediscover-LooksUp :
    (p q : ℕ) (g : Elements) (h : Handler) (k : ℕ)
    → IsConfigured p q h
    → LooksUp p q (rediscover g h k)
unfolding rediscover
rediscover-LooksUp p q g h k c =
    if_keep (LooksUp p q) (not g.has_root) _ _ (record { configured = c })
      (adopt-LooksUp p q g h k (g.discover k) c)

find_cached-LooksUp :
    (p q : ℕ) (g : Elements) (h : Handler) (k : ℕ) (o : Option ℕ)
    → IsConfigured p q h
    → LooksUp p q (find_cached g h k o)
unfolding find_cached
find_cached-LooksUp p q g h k none c = rediscover-LooksUp p q g h k c
find_cached-LooksUp p q g h k (some e) c =
    if_keep (LooksUp p q) (not (g.has_root && g.is_bin) || g.is_child e) _ _
      (record { configured = c })
      (rediscover-LooksUp p q g (record h { source_bins = erase k h.source_bins }) k
        (kept p q none h (record h { source_bins = erase k h.source_bins }) c refl refl
          refl).configured)

-- The last recording of the source started `p` seconds before `now`.
record Recorded (p q k now : ℕ) (m : Handler) : Type 0 where
  configured : IsConfigured p q m
  state : SourceRecordingState
  found : find k m.source_states ≡ some state
  started : state.last_record_time ≡ now - p * second

actual_start :
    (p now : ℕ)
    → p * second < now
    → now < u64
    → (if ltb (seconds_ns (pos p)) now then now - seconds_ns (pos p) else 0) ≡ now - p * second
unfolding seconds_ns to_unsigned
actual_start p now h k = ground arith

start_on-Recorded :
    (p q : ℕ) (g : Elements) (k now e : ℕ) (r : Option ℕ × Handler)
    → LooksUp p q r
    → r.0 ≡ some e
    → p * second < now
    → now < u64
    → Recorded p q k now (start_on g k now r)
unfolding start_on
start_on-Recorded p q g k now e (none, h) c f l u = absurd (cc)
start_on-Recorded p q g k now e (some x, h) c f l u = record {
  configured = (kept p q none h _ c.configured refl refl refl).configured;
  state = _;
  found = find-insert_self k _ h.source_states;
  started =
      ap (λ pre. if ltb (seconds_ns pre) now then now - seconds_ns pre else 0) c.configured.pre
      ∙ actual_start p now l u;
}

-- The source records nothing, and its last recording started at `n`.
record Rested (p q k n : ℕ) (m : Handler) : Type 0 where
  configured : IsConfigured p q m
  last : (state_of m k).last_record_time ≡ n
  idle : is_active (state_of m k) ≡ 0

clear-Rested :
    (p q k n : ℕ) (m : Handler) (o : Option SourceRecordingState) (s : SourceRecordingState)
    → o ≡ some s
    → s.last_record_time ≡ n
    → IsConfigured p q m
    → Rested p q k n (clear_found m k o)
unfolding clear_found
clear-Rested p q k n m none s e f c = absurd (cc)
clear-Rested p q k n m (some t) s e f c =
    let same : state_of (set_state m k (clear_session t)) k ≡ clear_session t =
      ap state_or_new (find-insert_self k (clear_session t) m.source_states) in
    record {
      configured = (kept p q none m _ c refl refl refl).configured;
      last = ap (λ x. x.last_record_time) same ∙ cc;
      idle = ap is_active same;
    }

interval_test :
    (q n later : ℕ)
    → n ≤ later
    → later < clock_time_none
    → q * second < u64
    → (not (n == clock_time_none) && ltb (clock_sub later n) (seconds_ns (pos q)))
      ≡ ltb (later - n) (q * second)
unfolding clock_sub seconds_ns to_unsigned
interval_test q n later h k l = ground arith

can_start-Rested :
    (p q k n later : ℕ) (m : Handler)
    → Rested p q k n m
    → n ≤ later
    → later < clock_time_none
    → q * second < u64
    → (can_start_recording m k later).0 ≡ not (ltb (later - n) (q * second))
unfolding can_start_recording
can_start-Rested p q k n later m r h u l =
    let s = state_of m k in
    let m' = set_state m k s in
    let P = λ (x : Bool × Handler). x.0 ≡ not (ltb (later - n) (q * second)) in
    let test : (not (s.last_record_time == clock_time_none)
          && ltb (clock_sub later s.last_record_time) (seconds_ns m.min_interval_sec))
        ≡ ltb (later - n) (q * second) =
      ap₂ (λ a i. not (a == clock_time_none) && ltb (clock_sub later a) (seconds_ns i)) r.last
        r.configured.interval
      ∙ interval_test q n later h u l in
    if_split P (not (is_active s == 0)) _ _ (λ e. absurd (ground (arith, r.idle)))
      (λ e.
        if_split P
          (ltb_ℤ (pos 0) m.max_concurrent_recordings
            && leb_ℤ m.max_concurrent_recordings (count_active_recordings m'))
          _ _ (λ f. absurd (ground (arith, r.configured.unlimited)))
          (λ f.
            if_split P
              (not (s.last_record_time == clock_time_none)
                && ltb (clock_sub later s.last_record_time) (seconds_ns m.min_interval_sec))
              _ _ (λ t. ground (arith, test)) (λ t. ground (arith, test))))

-- With no limit of recordings, take a recording that was started at `now`, with its element found,
-- and that has ended. The source may start another at a `later` time exactly if from the start of
-- the pre-event time, `p` seconds before `now`, the `q` seconds of the interval have passed, where
-- these times are within the range of the clock.
pub can_start-start_recording :
    (p q : ℕ) (g : Elements) (h : Handler) (k now later e : ℕ)
    → IsConfigured p q h
    → (find_nvurisrcbin g h k).0 ≡ some e
    → p * second < now
    → now ≤ later
    → later < clock_time_none
    → q * second < u64
    → (can_start_recording (clear_for (start_recording g h k now) (some k)) k later).0
      ≡ not (ltb (later - (now - p * second)) (q * second))
unfolding start_recording find_nvurisrcbin
can_start-start_recording p q g h k now later e c f l u v w =
    let r =
      start_on-Recorded p q g k now e (find_cached g h k (find k h.source_bins))
        (find_cached-LooksUp p q g h k (find k h.source_bins) c) f l (omega arith) in
    can_start-Rested p q k (now - p * second) later _
      (clear-Rested p q k (now - p * second) _ _ r.state r.found r.started r.configured)
      (omega arith) v w

-- With no limit of recordings, an interval that is no longer than the pre-event time holds nothing
-- back: once a recording, started with its element found, has ended, the source may start another
-- at any time within the range of the clock.
pub can_start-start_recording_within :
    (p q : ℕ) (g : Elements) (h : Handler) (k now later e : ℕ)
    → q ≤ p
    → IsConfigured p q h
    → (find_nvurisrcbin g h k).0 ≡ some e
    → p * second < now
    → now ≤ later
    → later < clock_time_none
    → (can_start_recording (clear_for (start_recording g h k now) (some k)) k later).0 ≡ true
can_start-start_recording_within p q g h k now later e s c f l u v =
    can_start-start_recording p q g h k now later e c f l u v (omega arith)
    ∙ (let b : ltb (later - (now - p * second)) (q * second) ≡ false = ground arith in ap not b)
