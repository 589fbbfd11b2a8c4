-- ===== src/Probes/FrameEvents/Tests.antt =====
-- Frames at concrete objects, and the theorems at inputs that meet their hypotheses.
use mathlib.Core.List.{Permᴰ}
use vms_engine.Common.Map.{find, insert, erase}
use vms_engine.Common.{
  ℕ, ◌≡◌, refl, true, false, List, [], ◌∷◌, nat_eq, Text, codes, text_beq, text_eq, contains, arith,
  pos, negsuc, ◌-ℤ◌, ◌<◌, ◌*◌, length, int_to_string, nat_to_string,
}
use vms_engine.Probes.FrameEvents.{
  FrameEventObject, PerSourceEmitState, FrameEventsConfig, Floats, LabelVoteState, new_source,
  new_votes,
}
use vms_engine.Probes.FrameEvents.Signatures.{
  text_leb, insert_text, sort_texts, join_rest, join, label_part, build_label_signature,
  object_part, build_signature,
}
use vms_engine.Probes.FrameEvents.Signatures.Order.{signatures-Perm}
use vms_engine.Probes.FrameEvents.Votes.{
  Iterate, window_size, trim, tallied, tally_from, challenge, pick_winner, commit_winner,
  commit_majority, commit_latest, add_sample, vote, relabel, keep_seen, vote_objects,
  apply_label_majority_vote,
}
use vms_engine.Probes.FrameEvents.Votes.Majority.{occurrences, latest_labels, commit_majority_lem}
use vms_engine.Probes.FrameEvents.Votes.Window.{IsVoteOf, apply_label_majority_vote_bounded}
use vms_engine.Probes.FrameEvents.Emission.{
  Decision, compute_iou, center_shifted, motion_changed, label_changed, parent_changed, any_changed,
  last_emitted, remember, reset_source_state, elapsed_since, is_suppressed, change_reasons,
  emit_reasons, note_emitted, decide, should_emit, should_emit_message,
}
use vms_engine.Probes.FrameEvents.Emission.Gap.{Frame, emissions, is_spaced, emissions_spaced}
use vms_engine.Probes.FrameEvents.Emission.Reasons.{should_emit_heartbeat}
use vms_engine.Probes.FrameEvents.Emission.Quiet.{all_distinct}

-- What a decision on a frame unfolds.
unfoldable pub decision : Unit {0}
unfolding find insert erase text_beq contains ◌-ℤ◌ int_to_string nat_to_string text_leb insert_text
    sort_texts join_rest join label_part build_label_signature object_part build_signature
    window_size trim tallied tally_from challenge pick_winner commit_winner commit_majority
    commit_latest add_sample vote relabel keep_seen vote_objects apply_label_majority_vote
    compute_iou center_shifted motion_changed label_changed parent_changed any_changed last_emitted
    remember reset_source_state elapsed_since is_suppressed change_reasons emit_reasons note_emitted
    decide should_emit should_emit_message emissions is_spaced all_distinct
decision = tt

-- A machine whose floats are all zero.
abbrev pub fl : Floats
fl = record {
  f_zero = 0;
  f_add = λ a b. 0;
  f_sub = λ a b. 0;
  f_mul = λ a b. 0;
  f_div = λ a b. 0;
  f_min = λ a b. 0;
  f_max = λ a b. 0;
  f_le = λ a b. true;
  to_double = λ a. 0;
  d_zero = 0;
  d_two = 0;
  d_add = λ a b. 0;
  d_sub = λ a b. 0;
  d_div = λ a b. 0;
  d_hypot = λ a b. 0;
  d_lt = λ a b. false;
  d_le = λ a b. true;
}

abbrev pub in_order : Iterate
in_order = λ counts. counts

abbrev pub g : FrameEventsConfig
g = record {
  heartbeat_interval_ms = pos 1000;
  min_emit_gap_ms = pos 250;
  motion_iou_threshold = 0;
  center_shift_ratio_threshold = 0;
  emit_on_motion_change = false;
  emit_on_first_frame = true;
  emit_on_object_set_change = true;
  emit_on_label_change = true;
  label_vote_window_frames = pos 3;
  emit_on_parent_change = true;
  emit_empty_frames = true;
}

abbrev pub object_with : ℕ → List Text → FrameEventObject
object_with id labels = record {
  object_key = [];
  instance_key = [];
  crop_ref = [];
  object_id = id;
  tracker_id = id;
  class_id = pos 0;
  object_type = codes "car";
  confidence = 0;
  labels = labels;
  label_signature = [];
  left = 0;
  top = 0;
  width = 0;
  height = 0;
  parent_object_key = [];
  parent_instance_key = [];
  parent_object_id = negsuc 0;
}

abbrev two : List FrameEventObject
two = object_with 7 [] ∷ object_with 3 [] ∷ []

abbrev frames : List Frame
frames =
    record { source_id = pos 0; objects = two; at = pos 100 }
    ∷ record { source_id = pos 0; objects = object_with 7 [] ∷ []; at = pos 200 }
    ∷ record { source_id = pos 1; objects = two; at = pos 210 }
    ∷ record { source_id = pos 0; objects = object_with 7 [] ∷ []; at = pos 400 }
    ∷ []

-- The change at 200 is within the gap, and is published at 400.
change_delayed : emissions fl in_order g (pos 0) [] frames ≡ pos 100 ∷ pos 400 ∷ []
unfolding decision
change_delayed = refl

emissions_spaced_example : is_spaced g (pos 0) (emissions fl in_order g (pos 0) [] frames) ≡ true
emissions_spaced_example = emissions_spaced fl in_order g (pos 0) frames

first_emits : (should_emit fl in_order g new_source two (pos 100)).emits ≡ true
unfolding decision
first_emits = refl

abbrev old_source : PerSourceEmitState
old_source = record new_source { last_emit_ms = pos 100 }

should_emit_heartbeat_example : (should_emit fl in_order g old_source two (pos 1100)).emits ≡ true
unfolding ◌-ℤ◌
should_emit_heartbeat_example =
    should_emit_heartbeat fl in_order g old_source two (pos 1100) refl refl refl refl

-- The first message, and the same frame again.
abbrev labelled : List FrameEventObject
labelled = object_with 7 (codes "red:1" ∷ []) ∷ object_with 3 [] ∷ []

abbrev published : Decision
published = should_emit fl in_order g new_source labelled (pos 100)

signatures-Perm_example :
    (build_signature two ≡ build_signature (object_with 3 [] ∷ object_with 7 [] ∷ []))
    × (build_label_signature (codes "b:1" ∷ codes "a:2" ∷ [])
        ≡ build_label_signature (codes "a:2" ∷ codes "b:1" ∷ []))
signatures-Perm_example =
    signatures-Perm two (object_with 3 [] ∷ object_with 7 [] ∷ []) (codes "b:1" ∷ codes "a:2" ∷ [])
      (codes "a:2" ∷ codes "b:1" ∷ []) (Permᴰ.swap refl refl) (Permᴰ.swap refl refl)

label_signature : build_label_signature (codes "b:1" ∷ codes "a:2" ∷ []) ≡ codes "a|b"
unfolding decision
label_signature = refl

abbrev voted : LabelVoteState
voted = record new_votes {
  samples =
      record { signature = codes "x"; labels = codes "x:0" ∷ [] }
      ∷ record { signature = codes "y"; labels = codes "y:0" ∷ [] }
      ∷ record { signature = codes "x"; labels = codes "x:1" ∷ [] }
      ∷ [];
}

most_x : length voted.samples < 2 * occurrences (codes "x") voted.samples
unfolding occurrences text_beq
most_x = omega arith

commit_majority_lem_example : commit_majority in_order voted ≡ record voted {
  committed_signature = codes "x";
  committed_labels = latest_labels (codes "x") [] voted.samples;
}
commit_majority_lem_example =
    commit_majority_lem in_order voted (codes "x") (λ counts e. (λ m. m, λ m. m)) most_x

apply_label_majority_vote_bounded_example :
    IsVoteOf
      (window_size g)
      two
      7
      (find 7 (apply_label_majority_vote in_order g new_source two).0.label_votes)
apply_label_majority_vote_bounded_example =
    apply_label_majority_vote_bounded in_order g new_source two 7
