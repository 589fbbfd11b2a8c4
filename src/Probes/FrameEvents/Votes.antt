-- ===== src/Probes/FrameEvents/Votes.antt =====
-- pipeline/src/probes/frame_events_probe_handler.cpp: the majority vote on an object's labels. The
-- order in which `counts` is iterated is `iterate`. The three maps of the count, which have the
-- same keys, are one.
pub mod Majority
pub mod Window
use vms_engine.Common.Map.{Map, find, insert}
use vms_engine.Common.{
  ℕ, suc, ◌+◌, ◌/◌, Bool, true, false, not, ◌&&◌, ◌||◌, Option, none, some, List, [], ◌∷◌, ◌++◌,
  Text, text_eq, nat_eq, ◌==◌, length, is_empty, contains, ltb, leb, if◌then◌else◌, ℤ, pos, negsuc,
  pos_part, ltb_ℤ, leb_ℤ, int_eq,
}
use vms_engine.Probes.FrameEvents.{
  FrameEventObject, LabelVoteSample, LabelVoteState, PerSourceEmitState, FrameEventsConfig,
  new_votes,
}
use vms_engine.Probes.FrameEvents.Signatures.{build_label_signature}

pub record Tally : Type 0 where
  pub count : ℕ
  pub latest_index : ℕ
  pub latest_labels : List Text

pub record Winner : Type 0 where
  pub signature : Text
  pub count : ℤ
  pub latest_index : ℕ

abbrev pub Iterate : Type 0
Iterate = Map Text Tally → List (Text × Tally)

-- std::max(1, config_.label_vote_window_frames)
unfoldable pub window_size : FrameEventsConfig → ℕ
window_size g =
    if leb_ℤ g.label_vote_window_frames (pos 1) then 1 else pos_part g.label_vote_window_frames

-- The loop that drops the oldest samples.
unfoldable pub trim : ℕ → List LabelVoteSample → List LabelVoteSample
trim window [] = []
trim window (s ∷ ss) =
    let rest = trim window ss in if ltb window (length (s ∷ ss)) then rest else s ∷ ss

abbrev pub count_of : Option Tally → ℕ
count_of none = 0
count_of (some t) = t.count

unfoldable pub tallied : ℕ → LabelVoteSample → Option Tally → Tally
tallied index s old = record {
  count = count_of old + 1;
  latest_index = index;
  latest_labels = s.labels;
}

unfoldable pub tally_from : ℕ → List LabelVoteSample → Map Text Tally → Map Text Tally
tally_from index [] counts = counts
tally_from index (s ∷ ss) counts =
    tally_from (index + 1) ss
      (insert s.signature (tallied index s (find s.signature counts)) counts)

-- A round of the loop on `counts`.
unfoldable pub challenge : Winner → Text → Tally → Winner
challenge w signature t =
    if ltb_ℤ w.count (pos t.count) || (pos t.count == w.count && ltb w.latest_index t.latest_index)
    then record { signature = signature; count = pos t.count; latest_index = t.latest_index }
    else w

unfoldable pub pick_winner : Winner → List (Text × Tally) → Winner
pick_winner w [] = w
pick_winner w ((signature, t) ∷ counts) = pick_winner (challenge w signature t) counts

-- latest_labels[winner_signature]
abbrev pub labels_of : Option Tally → List Text
labels_of none = []
labels_of (some t) = t.latest_labels

unfoldable pub commit_winner : LabelVoteState → Map Text Tally → Winner → LabelVoteState
commit_winner v counts w =
    if ltb_ℤ (pos (length v.samples / 2)) w.count
    then record v {
      committed_signature = w.signature;
      committed_labels = labels_of (find w.signature counts);
    }
    else v

-- The winner before the loop.
abbrev pub first_winner : LabelVoteState → Winner
first_winner v = record { signature = v.committed_signature; count = negsuc 0; latest_index = 0 }

module _ (iterate : Iterate) where
  unfoldable pub commit_majority : LabelVoteState → LabelVoteState
  commit_majority v =
      let counts = tally_from 0 v.samples [] in
      commit_winner v counts (pick_winner (first_winner v) (iterate counts))

-- vote_state.samples.back(), which is committed.
unfoldable pub commit_latest : LabelVoteState → List LabelVoteSample → LabelVoteState
commit_latest v [] = v
commit_latest v (s ∷ []) = record v {
  committed_signature = s.signature;
  committed_labels = s.labels;
}
commit_latest v (s ∷ r ∷ ss) = commit_latest v (r ∷ ss)

unfoldable pub add_sample : ℕ → LabelVoteState → List Text → LabelVoteState
add_sample window v labels = record v {
  provisional_initialized = true;
  provisional_labels = if v.provisional_initialized then v.provisional_labels else labels;
  samples =
      trim window
        (v.samples ++ record { signature = build_label_signature labels; labels = labels } ∷ []);
}

module _ (iterate : Iterate) where
  unfoldable pub vote : ℕ → LabelVoteState → List Text → LabelVoteState
  vote window old labels =
      let v = add_sample window old labels in
      if window == 1 && not (is_empty v.samples)
      then commit_latest v v.samples
      else if leb window (length v.samples)
      then commit_majority iterate v
      else v

unfoldable pub relabel : LabelVoteState → FrameEventObject → FrameEventObject
relabel v o =
    if not (is_empty v.committed_signature) || not (is_empty v.committed_labels)
    then record o { labels = v.committed_labels; label_signature = v.committed_signature }
    else record o { labels = v.provisional_labels; label_signature = [] }

abbrev pub or_new : Option LabelVoteState → LabelVoteState
or_new none = new_votes
or_new (some v) = v

abbrev pub ids_of : List FrameEventObject → List ℕ
ids_of [] = []
ids_of (o ∷ os) = o.object_id ∷ ids_of os

-- The votes of the objects that were not seen go.
unfoldable pub keep_seen : List ℕ → Map ℕ LabelVoteState → Map ℕ LabelVoteState
keep_seen seen [] = []
keep_seen seen ((id, v) ∷ votes) =
    let rest = keep_seen seen votes in if contains id seen then (id, v) ∷ rest else rest

module _ (iterate : Iterate) where
  -- The loop of `apply_label_majority_vote` on the votes and the objects.
  unfoldable pub vote_objects :
      ℕ
      → Map ℕ LabelVoteState
      → List FrameEventObject
      → Map ℕ LabelVoteState × List FrameEventObject
  vote_objects window votes [] = (votes, [])
  vote_objects window votes (o ∷ os) =
      let v = vote iterate window (or_new (find o.object_id votes)) o.labels in
      let rest = vote_objects window (insert o.object_id v votes) os in
      (rest.0, relabel v o ∷ rest.1)

  unfoldable pub apply_label_majority_vote :
      FrameEventsConfig
      → PerSourceEmitState
      → List FrameEventObject
      → PerSourceEmitState × List FrameEventObject
  apply_label_majority_vote g state objects =
      let r = vote_objects (window_size g) state.label_votes objects in
      (record state { label_votes = keep_seen (ids_of objects) r.0 }, r.1)
