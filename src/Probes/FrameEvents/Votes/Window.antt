-- ===== src/Probes/FrameEvents/Votes/Window.antt =====
-- The memory of the votes: no window grows beyond its size, and no object is kept that is gone.
use vms_engine.Common.Map.{Map, find, insert, find-insert}
use vms_engine.Common.{
  ℕ, ◌≤◌, ◌≡◌, ◌≢◌, refl, sym, ◌∙◌, true, false, not, ◌&&◌, Option, none, some, List, [], ◌∷◌, Text,
  nat_eq, nat_beq_iff, ◌==◌, length, is_empty, contains, leb, if_keep, Bool-cases, inl, inr, arith,
}
use vms_engine.Probes.FrameEvents.{
  FrameEventObject, LabelVoteSample, LabelVoteState, PerSourceEmitState, FrameEventsConfig,
}
use vms_engine.Probes.FrameEvents.Votes.{
  Iterate, window_size, trim, commit_winner, commit_majority, commit_latest, add_sample, vote,
  or_new, ids_of, keep_seen, vote_objects, apply_label_majority_vote,
}

-- The samples fit in the window.
abbrev FitsIn : ℕ → LabelVoteState → Type 0
FitsIn window v = length v.samples ≤ window

trim-fits : (window : ℕ) (ss : List LabelVoteSample) → length (trim window ss) ≤ window
unfolding trim
trim-fits window [] = omega arith
trim-fits window (s ∷ ss) = ground (arith, trim-fits window ss)

add_sample-fits :
    (window : ℕ) (v : LabelVoteState) (labels : List Text)
    → FitsIn window (add_sample window v labels)
unfolding add_sample
add_sample-fits window v labels = trim-fits window _

commit_latest-fits :
    (window : ℕ) (v : LabelVoteState) (ss : List LabelVoteSample)
    → FitsIn window v
    → FitsIn window (commit_latest v ss)
unfolding commit_latest
commit_latest-fits window v [] h = h
commit_latest-fits window v (s ∷ []) h = h
commit_latest-fits window v (s ∷ r ∷ ss) h = commit_latest-fits window v (r ∷ ss) h

module _ (iterate : Iterate) (window : ℕ) where
  vote-fits :
      (old : LabelVoteState) (labels : List Text) → FitsIn window (vote iterate window old labels)
  unfolding vote commit_majority commit_winner
  vote-fits old labels =
      let v = add_sample window old labels in
      let h = add_sample-fits window old labels in
      if_keep (FitsIn window) (window == 1 && not (is_empty v.samples)) _ _
        (commit_latest-fits window v v.samples h)
        (if_keep (FitsIn window) (leb window (length v.samples)) _ _
          (if_keep (FitsIn window) _ _ _ h h) h)

  -- What the map has for one object fits.
  FitsAt : ℕ → Map ℕ LabelVoteState → Type 0
  FitsAt id votes = (v : LabelVoteState) → find id votes ≡ some v → FitsIn window v

  insert-FitsAt :
      (id j : ℕ) (v : LabelVoteState) (votes : Map ℕ LabelVoteState)
      → FitsIn window v
      → ((j == id) ≡ false → FitsAt id votes)
      → FitsAt id (insert j v votes)
  unfolding FitsAt
  insert-FitsAt id j v votes fits h u e = elim (Bool-cases (j == id)) [
    | inl q ↦ let same : v ≡ u = ground (arith, find-insert j id v votes) in rw (← same) fits
    | inr q ↦ h q u (ground (arith, find-insert j id v votes))
  ]

  vote_objects-FitsAt :
      (id : ℕ) (votes : Map ℕ LabelVoteState) (os : List FrameEventObject)
      → FitsAt id votes
      → FitsAt id (vote_objects iterate window votes os).0
  unfolding vote_objects
  vote_objects-FitsAt id votes [] h = h
  vote_objects-FitsAt id votes (o ∷ os) h =
      vote_objects-FitsAt id
        (insert o.object_id (vote iterate window (or_new (find o.object_id votes)) o.labels) votes)
        os (insert-FitsAt id o.object_id _ votes (vote-fits _ o.labels) (λ n. h))

  -- An object of the frame has just voted.
  seen-FitsAt :
      (id : ℕ) (votes : Map ℕ LabelVoteState) (os : List FrameEventObject)
      → contains id (ids_of os) ≡ true
      → FitsAt id (vote_objects iterate window votes os).0
  unfolding vote_objects contains FitsAt
  seen-FitsAt id votes [] h = absurd (cc)
  seen-FitsAt id votes (o ∷ os) h =
      let v = vote iterate window (or_new (find o.object_id votes)) o.labels in
      elim (Bool-cases (o.object_id == id)) [
        | inl q ↦ vote_objects-FitsAt id (insert o.object_id v votes) os (
            insert-FitsAt id o.object_id v votes (vote-fits _ o.labels)
              (λ n. absurd (ground arith)))
        | inr q ↦ seen-FitsAt id (insert o.object_id v votes) os (ground arith)
      ]

find-keep_seen :
    (seen : List ℕ) (id : ℕ) (v : LabelVoteState) (votes : Map ℕ LabelVoteState)
    → find id (keep_seen seen votes) ≡ some v
    → (contains id seen ≡ true) × (find id votes ≡ some v)
unfolding keep_seen find
find-keep_seen seen id v [] h = absurd (cc)
find-keep_seen seen id v ((j, u) ∷ votes) h =
    ground (arith, find-keep_seen seen id v votes, nat_beq_iff j id)

keep_seen-kept :
    (seen : List ℕ) (id : ℕ) (votes : Map ℕ LabelVoteState)
    → contains id seen ≡ true
    → find id (keep_seen seen votes) ≡ find id votes
unfolding keep_seen find
keep_seen-kept seen id [] h = refl
keep_seen-kept seen id ((j, u) ∷ votes) h =
    ground (arith, keep_seen-kept seen id votes h, nat_beq_iff j id)

-- What the loop has for an object that has voted.
abbrev IsThere : ℕ → Map ℕ LabelVoteState → Type 0
IsThere id votes = find id votes ≢ none

vote_objects-IsThere :
    (iterate : Iterate) (window id : ℕ) (votes : Map ℕ LabelVoteState) (os : List FrameEventObject)
    → IsThere id votes
    → IsThere id (vote_objects iterate window votes os).0
unfolding vote_objects
vote_objects-IsThere iterate window id votes [] h = h
vote_objects-IsThere iterate window id votes (o ∷ os) h =
    let v = vote iterate window (or_new (find o.object_id votes)) o.labels in
    vote_objects-IsThere iterate window id (insert o.object_id v votes) os
      (λ e. ground (arith, find-insert o.object_id id v votes, h))

seen-IsThere :
    (iterate : Iterate) (window id : ℕ) (votes : Map ℕ LabelVoteState) (os : List FrameEventObject)
    → contains id (ids_of os) ≡ true
    → IsThere id (vote_objects iterate window votes os).0
unfolding vote_objects contains
seen-IsThere iterate window id votes [] h = absurd (cc)
seen-IsThere iterate window id votes (o ∷ os) h =
    let v = vote iterate window (or_new (find o.object_id votes)) o.labels in
    elim (Bool-cases (o.object_id == id)) [
      | inl q ↦
          vote_objects-IsThere iterate window id (insert o.object_id v votes) os
            (λ e. ground (arith, find-insert o.object_id id v votes))
      | inr q ↦ seen-IsThere iterate window id (insert o.object_id v votes) os (ground arith)
    ]

-- The votes that a source keeps of one object: those of an object of the frame, at most as many as
-- the window has, and none of any other object.
abbrev pub IsVoteOf : ℕ → List FrameEventObject → ℕ → Option LabelVoteState → Type 0
IsVoteOf window objects id none = contains id (ids_of objects) ≡ false
IsVoteOf window objects id (some v) =
    (contains id (ids_of objects) ≡ true) × (length v.samples ≤ window)

votes-IsVoteOf :
    (iterate : Iterate) (g : FrameEventsConfig) (state : PerSourceEmitState)
    (objects : List FrameEventObject) (id : ℕ) (o : Option LabelVoteState)
    → find id (apply_label_majority_vote iterate g state objects).0.label_votes ≡ o
    → IsVoteOf (window_size g) objects id o
unfolding apply_label_majority_vote FitsAt
votes-IsVoteOf iterate g state objects id none e =
    elim (Bool-cases (contains id (ids_of objects))) [
      | inl h ↦ absurd (
          seen-IsThere iterate (window_size g) id state.label_votes objects h
            (sym (keep_seen-kept (ids_of objects) id _ h) ∙ e))
      | inr h ↦ h
    ]
votes-IsVoteOf iterate g state objects id (some v) e =
    let kept = find-keep_seen (ids_of objects) id v _ e in
    (kept.0, seen-FitsAt iterate (window_size g) id state.label_votes objects kept.0 v kept.1)

-- After a frame a source has votes of exactly the objects in that frame, and of none of them more
-- samples than the window.
pub apply_label_majority_vote_bounded :
    (iterate : Iterate) (g : FrameEventsConfig) (state : PerSourceEmitState)
    (objects : List FrameEventObject) (id : ℕ)
    → IsVoteOf
        (window_size g)
        objects
        id
        (find id (apply_label_majority_vote iterate g state objects).0.label_votes)
apply_label_majority_vote_bounded iterate g state objects id =
    votes-IsVoteOf iterate g state objects id _ refl
