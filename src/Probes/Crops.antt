-- ===== src/Probes/Crops.antt =====
-- pipeline/src/probes/crop_object_handler.cpp and its header: when a crop of an object is taken,
-- and when the handler forgets an object. A time is a GstClockTime. The counters of frames are
-- unbounded; a signed sum of tokens that overflows is written as wrapping.
pub mod Tokens
pub mod Stale
pub mod Publish
mod Tests
use vms_engine.Common.Map.{Map, find, insert, erase}
use vms_engine.Common.{
  ℕ, suc, ◌+◌, ◌-◌, ◌*◌, ◌/◌, ◌%◌, Bool, true, false, not, ◌&&◌, ◌||◌, Option, none, some, List, [],
  ◌∷◌, Text, text_eq, nat_eq, ◌==◌, length, is_empty, ltb, leb, if◌then◌else◌, ℤ, pos, leb_ℤ, ltb_ℤ,
  int_eq, to_int, int_of_u32, ◌+ℤ◌, ◌-ℤ◌,
}

pub data PubDecisionType : Type 0 where
  nothing : PubDecisionType
  first_seen : PubDecisionType
  bypass : PubDecisionType
  heartbeat : PubDecisionType
  exit : PubDecisionType

-- GST_CLOCK_TIME_NONE
abbrev pub no_time : ℕ
no_time = 18446744073709551615

pub record ObjectPubState : Type 0 where
  pub last_publish_pts : ℕ
  pub heartbeat_seq : ℕ
  pub last_payload_hash : ℕ
  pub last_instance_key : Text
  pub last_message_id : Text
  pub last_seen_frame_num : ℕ
  pub on_stable_count : ℕ
  pub bypass_tokens : ℤ
  pub last_refill_pts : ℕ
  pub last_sgie_labels : Text
  pub pending_sgie_labels : Text
  pub pending_label_count : ℕ

pub record CropConfig : Type 0 where
  pub capture_interval_ns : ℕ
  pub burst_max : ℤ
  pub k_on_frames : ℕ
  pub k_off_frames : ℕ
  pub k_label_frames : ℕ
  pub token_refill_ns : ℕ
  pub bypass_min_gap_ns : ℕ
  pub stale_timeout_ns : ℕ

abbrev pub new_pub_state : ObjectPubState
new_pub_state = record {
  last_publish_pts = no_time;
  heartbeat_seq = 0;
  last_payload_hash = 0;
  last_instance_key = [];
  last_message_id = [];
  last_seen_frame_num = 0;
  on_stable_count = 0;
  bypass_tokens = pos 0;
  last_refill_pts = no_time;
  last_sgie_labels = [];
  pending_sgie_labels = [];
  pending_label_count = 0;
}

abbrev pub is_time : ℕ → Bool
is_time t = not (t == no_time)

abbrev pub min_ℤ : ℤ → ℤ → ℤ
min_ℤ a b = if ltb_ℤ b a then b else a

module _ (g : CropConfig) where
  unfoldable pub add_tokens : ObjectPubState → ℕ → ℕ → ObjectPubState
  add_tokens s now_pts elapsed = record s {
    bypass_tokens =
        min_ℤ (to_int (s.bypass_tokens +ℤ int_of_u32 (elapsed / g.token_refill_ns % 4294967296)))
          g.burst_max;
    last_refill_pts = now_pts;
  }

  unfoldable pub refill_tokens : ObjectPubState → ℕ → ObjectPubState
  refill_tokens s now_pts =
      if not (is_time now_pts)
      then s
      else if not (is_time s.last_refill_pts)
      then record s { last_refill_pts = now_pts; bypass_tokens = g.burst_max }
      else if leb now_pts s.last_refill_pts
      then s
      else if leb g.token_refill_ns (now_pts - s.last_refill_pts)
      then add_tokens s now_pts (now_pts - s.last_refill_pts)
      else s

  unfoldable pub attempt_bypass : ObjectPubState → ObjectPubState × Bool
  attempt_bypass s =
      if ltb_ℤ (pos 0) s.bypass_tokens
      then (record s { bypass_tokens = s.bypass_tokens -ℤ pos 1 }, true)
      else (s, false)

  -- The observation of the object in a frame.
  unfoldable pub observe : ObjectPubState → ℕ → ObjectPubState
  observe s frame_num = record s {
    on_stable_count =
        if ltb 0 s.last_seen_frame_num
          && (ltb s.last_seen_frame_num frame_num
              && leb (frame_num - s.last_seen_frame_num) g.k_off_frames)
        then s.on_stable_count + 1
        else 1;
    last_seen_frame_num = frame_num;
  }

  abbrev pub clear_pending : ObjectPubState → ObjectPubState
  clear_pending s = record s { pending_sgie_labels = []; pending_label_count = 0 }

  unfoldable pub note_pending : ObjectPubState → Text → ObjectPubState
  note_pending s labels =
      if s.pending_sgie_labels == labels
      then record s { pending_label_count = s.pending_label_count + 1 }
      else record s { pending_sgie_labels = labels; pending_label_count = 1 }

  -- A changed label, within the capture interval and after the gap.
  unfoldable pub decide_changed : ObjectPubState → ObjectPubState × PubDecisionType
  decide_changed s =
      let r = attempt_bypass s in
      if not (leb g.k_label_frames s.pending_label_count)
      then (s, nothing)
      else if r.1
      then (clear_pending r.0, bypass)
      else (r.0, nothing)

  unfoldable pub decide_within : ObjectPubState → Text → ℕ → ObjectPubState × PubDecisionType
  decide_within s labels elapsed =
      if ltb elapsed g.bypass_min_gap_ns
      then (s, nothing)
      else if is_empty labels || labels == s.last_sgie_labels
      then (clear_pending s, nothing)
      else decide_changed (note_pending s labels)

  -- `last_pts` is the time of the last capture.
  unfoldable pub decide_again : ObjectPubState → Text → ℕ → ℕ → ObjectPubState × PubDecisionType
  decide_again s labels current_pts last_pts =
      let elapsed = if leb last_pts current_pts then current_pts - last_pts else 0 in
      if g.capture_interval_ns == 0
      then (s, heartbeat)
      else if not (is_time last_pts) || not (is_time current_pts)
      then (s, heartbeat)
      else if leb g.capture_interval_ns elapsed
      then (clear_pending (refill_tokens s current_pts), heartbeat)
      else decide_within (refill_tokens s current_pts) labels elapsed

  unfoldable pub decide_first : ObjectPubState → Text → ℕ → ObjectPubState × PubDecisionType
  decide_first s labels current_pts = (
    record (clear_pending s) {
      bypass_tokens = g.burst_max;
      last_sgie_labels = labels;
      last_refill_pts = if is_time current_pts then current_pts else s.last_refill_pts;
    },
    first_seen,
  )

  unfoldable pub decide_stable :
      ObjectPubState → Text → ℕ → Option ℕ → ObjectPubState × PubDecisionType
  decide_stable s labels current_pts none = decide_first s labels current_pts
  decide_stable s labels current_pts (some last_pts) = decide_again s labels current_pts last_pts

  -- On the state of the object and the time of its last capture, if there was one.
  unfoldable pub decide_capture :
      ObjectPubState → Text → ℕ → ℕ → Option ℕ → ObjectPubState × PubDecisionType
  decide_capture old labels current_pts frame_num captured =
      let s = observe old frame_num in
      if ltb s.on_stable_count g.k_on_frames
      then (s, nothing)
      else decide_stable s labels current_pts captured

-- The key of an object: 16 bits of the source, 48 of the tracker's id.
unfoldable pub compose_key : ℕ → ℕ → ℕ
compose_key source_id tracker_id =
    (source_id * 281474976710656) % 18446744073709551616 + tracker_id % 281474976710656

unfoldable pub source_of_key : ℕ → ℕ
source_of_key key = key / 281474976710656

unfoldable pub tracker_of_key : ℕ → ℕ
tracker_of_key key = key % 281474976710656

-- The maps of the objects.
pub record Objects : Type 0 where
  pub object_keys : Map ℕ Text
  pub object_last_seen : Map ℕ ℕ
  pub last_capture_pts : Map ℕ ℕ
  pub pub_state : Map ℕ ObjectPubState
  pub child_parent_oid_cache : Map ℕ ℕ

unfoldable pub is_stale : ℕ → ℕ → ℕ → Bool
is_stale timeout_ns current_pts last_seen =
    not (is_time last_seen)
    || (ltb last_seen current_pts && ltb timeout_ns (current_pts - last_seen))

-- All that is known of one object.
unfoldable pub forget : Objects → ℕ → Objects
forget o key = record {
  object_keys = erase key o.object_keys;
  object_last_seen = erase key o.object_last_seen;
  last_capture_pts = erase key o.last_capture_pts;
  pub_state = erase key o.pub_state;
  child_parent_oid_cache = erase key o.child_parent_oid_cache;
}

-- The loop on `object_last_seen_`: what is left, and the keys of the exit messages.
unfoldable pub forget_stale : ℕ → ℕ → Map ℕ ℕ → Objects → Objects × List ℕ
forget_stale timeout_ns current_pts [] o = (o, [])
forget_stale timeout_ns current_pts ((key, last_seen) ∷ seen) o =
    let dropped = forget_stale timeout_ns current_pts seen (forget o key) in
    let kept = forget_stale timeout_ns current_pts seen o in
    if is_stale timeout_ns current_pts last_seen then (dropped.0, key ∷ dropped.1) else kept

abbrev pub max_tracked_objects : ℕ
max_tracked_objects = 5000

unfoldable pub is_overfull : Objects → Bool
is_overfull o =
    ltb max_tracked_objects (length o.object_keys)
    || (ltb max_tracked_objects (length o.object_last_seen)
        || (ltb max_tracked_objects (length o.last_capture_pts)
            || ltb max_tracked_objects (length o.pub_state)))

abbrev pub no_objects : Objects
no_objects = record {
  object_keys = [];
  object_last_seen = [];
  last_capture_pts = [];
  pub_state = [];
  child_parent_oid_cache = [];
}

unfoldable pub cleanup_stale_objects : CropConfig → Objects → ℕ → Objects × List ℕ
cleanup_stale_objects g o current_pts =
    let r = forget_stale g.stale_timeout_ns current_pts o.object_last_seen o in
    if g.stale_timeout_ns == 0
    then (o, [])
    else if not (is_time current_pts)
    then (o, [])
    else (if is_overfull r.0 then no_objects else r.0, r.1)
