-- ===== src/Probes/Crops/Tests.antt =====
-- Decisions and clean-ups at concrete objects, and the theorems at inputs that meet their
-- hypotheses.
use vms_engine.Common.Map.{find, erase}
use vms_engine.Common.{
  ◌-◌, ◌≤◌, ◌<◌, ◌≡◌, refl, true, false, none, some, [], ◌∷◌, codes, text_beq, text_eq, nat_eq,
  ◌==◌, leb, if◌then◌else◌, pos, negsuc, ltb_ℤ, to_int, int_of_u32, ◌+ℤ◌, ◌-ℤ◌,
}
use vms_engine.Probes.Crops.{
  nothing, first_seen, bypass, ObjectPubState, CropConfig, Objects, new_pub_state, add_tokens,
  refill_tokens, attempt_bypass, observe, note_pending, decide_changed, decide_within, decide_again,
  decide_first, decide_stable, decide_capture, is_stale, forget, forget_stale, is_overfull,
  cleanup_stale_objects,
}
use vms_engine.Probes.Crops.Tokens.{decide_capture_bypass}
use vms_engine.Probes.Crops.Stale.{IsFreshAt, cleanup_stale_objects_bounded}

-- What a decision and a clean-up unfold.
program : Unit {0}
unfolding find erase text_beq to_int int_of_u32 ◌+ℤ◌ ◌-ℤ◌ add_tokens refill_tokens attempt_bypass
    observe note_pending decide_changed decide_within decide_again decide_first decide_stable
    decide_capture is_stale forget forget_stale is_overfull cleanup_stale_objects
program = tt

abbrev g : CropConfig
g = record {
  capture_interval_ns = 1000;
  burst_max = pos 1;
  k_on_frames = 2;
  k_off_frames = 2;
  k_label_frames = 1;
  token_refill_ns = 1;
  bypass_min_gap_ns = 10;
  stale_timeout_ns = 500;
}

-- An object in its first frame is not captured, in its second it is.
first_frame : (decide_capture g new_pub_state (codes "a") 100 1 none).1 ≡ nothing
unfolding program
first_frame = refl

second_frame :
    (decide_capture g
      (decide_capture g new_pub_state (codes "a") 100 1 none).0
      (codes "a")
      100
      2
      none).1
    ≡ first_seen
unfolding program
second_frame = refl

abbrev captured : ObjectPubState
captured = record new_pub_state {
  last_seen_frame_num = 2;
  on_stable_count = 2;
  bypass_tokens = pos 1;
  last_refill_pts = 100;
  last_sgie_labels = codes "a";
}

bypassed : (decide_capture g captured (codes "b") 150 3 (some 100)).1 ≡ bypass
unfolding program
bypassed = refl

-- Where a token is refilled in every nanosecond, a pause of 2 ^ 31 of them makes the number of
-- tokens negative.
refill_overflow : (refill_tokens g captured 2147483748).bypass_tokens ≡ negsuc 2147483646
unfolding program
refill_overflow = refl

decide_capture_bypass_example :
    let s = observe g captured 3 in
    let filled = refill_tokens g s 150 in
    let elapsed = if leb 100 150 then 150 - 100 else 0 in
    (10 ≤ elapsed)
    × (elapsed < 1000)
    × (2 ≤ s.on_stable_count)
    × ((codes "b" == codes "a") ≡ false)
    × (1 ≤ (note_pending g filled (codes "b")).pending_label_count)
    × (ltb_ℤ (pos 0) filled.bypass_tokens ≡ true)
decide_capture_bypass_example = decide_capture_bypass g captured (codes "b") 150 3 100 bypassed

abbrev two_objects : Objects
two_objects = record {
  object_keys = (7, codes "k7") ∷ (8, codes "k8") ∷ [];
  object_last_seen = (7, 100) ∷ (8, 900) ∷ [];
  last_capture_pts = (7, 100) ∷ [];
  pub_state = (7, captured) ∷ [];
  child_parent_oid_cache = (7, 8) ∷ [];
}

stale_dropped : (cleanup_stale_objects g two_objects 1000).1 ≡ 7 ∷ []
unfolding program
stale_dropped = refl

still_seen : find 8 (cleanup_stale_objects g two_objects 1000).0.object_last_seen ≡ some 900
unfolding program
still_seen = refl

cleanup_stale_objects_bounded_example :
    (is_overfull (cleanup_stale_objects g two_objects 1000).0 ≡ false)
    × IsFreshAt g two_objects 1000 8
        (find 8 (cleanup_stale_objects g two_objects 1000).0.object_last_seen)
cleanup_stale_objects_bounded_example = cleanup_stale_objects_bounded g two_objects 1000 8 refl refl
