-- ===== src/Probes/Crops/Tokens.antt =====
-- The hysteresis and the token bucket of the captures.
use vms_engine.Common.Int.{ -ℤ_parts}
use vms_engine.Common.{
  ℕ, ◌-◌, ◌≤◌, ◌<◌, ◌≡◌, refl, ◌∙◌, true, false, not, ◌||◌, Option, none, some, Text, text_eq,
  nat_eq, ◌==◌, is_empty, ltb, leb, if◌then◌else◌, if_keep, if_split, pos, leb_ℤ, ltb_ℤ, arith,
}
use vms_engine.Probes.Crops.{
  PubDecisionType, bypass, ObjectPubState, CropConfig, is_time, add_tokens, refill_tokens,
  attempt_bypass, observe, note_pending, decide_changed, decide_within, decide_again, decide_first,
  decide_stable, decide_capture,
}

-- The bucket is not overfull.
abbrev pub IsWithin : CropConfig → ObjectPubState → Type 0
IsWithin g s = leb_ℤ s.bypass_tokens g.burst_max ≡ true

module _ (g : CropConfig) where
  refill_tokens-IsWithin :
      (s : ObjectPubState) (now : ℕ) → IsWithin g s → IsWithin g (refill_tokens g s now)
  unfolding refill_tokens add_tokens
  refill_tokens-IsWithin s now h =
      let P : ObjectPubState → Type 0 = IsWithin g in
      if_keep P (not (is_time now)) _ _ h (
        if_keep P (not (is_time s.last_refill_pts)) _ _ (ground arith) (
          if_keep P (leb now s.last_refill_pts) _ _ h
            (if_keep P (leb g.token_refill_ns (now - s.last_refill_pts)) _ _ (ground arith) h)))

  -- The state of a decision.
  abbrev Leaves : ObjectPubState × PubDecisionType → Type 0
  Leaves r = IsWithin g r.0

  decide_changed-IsWithin : (s : ObjectPubState) → IsWithin g s → Leaves (decide_changed g s)
  unfolding decide_changed attempt_bypass
  decide_changed-IsWithin s h = ground (arith, -ℤ_parts s.bypass_tokens (pos 1))

  decide_within-IsWithin :
      (s : ObjectPubState) (labels : Text) (elapsed : ℕ)
      → IsWithin g s
      → Leaves (decide_within g s labels elapsed)
  unfolding decide_within note_pending
  decide_within-IsWithin s labels elapsed h =
      if_keep Leaves (ltb elapsed g.bypass_min_gap_ns) _ _ h (
        if_keep Leaves (is_empty labels || labels == s.last_sgie_labels) _ _ h (
          decide_changed-IsWithin _
            (if_keep (IsWithin g) (s.pending_sgie_labels == labels) _ _ h h)))

  decide_again-IsWithin :
      (s : ObjectPubState) (labels : Text) (current last : ℕ)
      → IsWithin g s
      → Leaves (decide_again g s labels current last)
  unfolding decide_again
  decide_again-IsWithin s labels current last h =
      let elapsed = if leb last current then current - last else 0 in
      let filled = refill_tokens-IsWithin s current h in
      if_keep Leaves (g.capture_interval_ns == 0) _ _ h (
        if_keep Leaves (not (is_time last) || not (is_time current)) _ _ h (
          if_keep Leaves (leb g.capture_interval_ns elapsed) _ _ filled
            (decide_within-IsWithin (refill_tokens g s current) labels elapsed filled)))

-- Whatever is seen of an object, its bucket never has more tokens than the burst allows.
pub decide_capture-IsWithin :
    (g : CropConfig) (s : ObjectPubState) (labels : Text) (current_pts frame_num : ℕ)
    (captured : Option ℕ)
    → IsWithin g s
    → IsWithin g (decide_capture g s labels current_pts frame_num captured).0
unfolding decide_capture decide_stable decide_first observe
decide_capture-IsWithin g s labels current_pts frame_num none h =
    if_keep (Leaves g) (ltb (observe g s frame_num).on_stable_count g.k_on_frames) _ _ h
      (ground arith)
decide_capture-IsWithin g s labels current_pts frame_num (some last) h =
    if_keep (Leaves g) (ltb (observe g s frame_num).on_stable_count g.k_on_frames) _ _ h
      (decide_again-IsWithin g (observe g s frame_num) labels current_pts last h)

refill_tokens-labels :
    (g : CropConfig) (s : ObjectPubState) (now : ℕ)
    → (refill_tokens g s now).last_sgie_labels ≡ s.last_sgie_labels
unfolding refill_tokens add_tokens
refill_tokens-labels g s now =
    let P = λ (x : ObjectPubState). x.last_sgie_labels ≡ s.last_sgie_labels in
    if_keep P (not (is_time now)) _ _ refl (
      if_keep P (not (is_time s.last_refill_pts)) _ _ refl (
        if_keep P (leb now s.last_refill_pts) _ _ refl
          (if_keep P (leb g.token_refill_ns (now - s.last_refill_pts)) _ _ refl refl)))

-- What a bypass needs of the state after the refill, `s`, and of the time since the last capture.
record IsEarned (g : CropConfig) (s : ObjectPubState) (labels : Text) (elapsed : ℕ) : Type 0 where
  rested : g.bypass_min_gap_ns ≤ elapsed
  changed : (labels == s.last_sgie_labels) ≡ false
  paid : ltb_ℤ (pos 0) s.bypass_tokens ≡ true
  stable : g.k_label_frames ≤ (note_pending g s labels).pending_label_count

pending-tokens :
    (g : CropConfig) (s : ObjectPubState) (labels : Text)
    → ltb_ℤ (pos 0) s.bypass_tokens ≡ ltb_ℤ (pos 0) (note_pending g s labels).bypass_tokens
unfolding note_pending
pending-tokens g s labels =
    if_keep (λ (x : ObjectPubState). ltb_ℤ (pos 0) s.bypass_tokens ≡ ltb_ℤ (pos 0) x.bypass_tokens)
      (s.pending_sgie_labels == labels) _ _ refl refl

module _ (g : CropConfig) where
  decide_changed-bypass :
      (s : ObjectPubState)
      → (decide_changed g s).1 ≡ bypass
      → (ltb_ℤ (pos 0) s.bypass_tokens ≡ true) × (g.k_label_frames ≤ s.pending_label_count)
  unfolding decide_changed attempt_bypass
  decide_changed-bypass s e = ground arith

  decide_within-IsEarned :
      (s : ObjectPubState) (labels : Text) (elapsed : ℕ)
      → (decide_within g s labels elapsed).1 ≡ bypass
      → IsEarned g s labels elapsed
  unfolding decide_within
  decide_within-IsEarned s labels elapsed =
      let P =
        λ (r : ObjectPubState × PubDecisionType). r.1 ≡ bypass → IsEarned g s labels elapsed in
      if_split P (ltb elapsed g.bypass_min_gap_ns) _ _ (λ h e. absurd (cc))
        (λ rested.
          if_split P (is_empty labels || labels == s.last_sgie_labels) _ _ (λ h e. absurd (cc))
            (λ h e.
              let due = decide_changed-bypass (note_pending g s labels) e in
              record {
                rested = ground arith;
                changed = ground arith;
                paid = pending-tokens g s labels ∙ due.0;
                stable = due.1;
              }))

  decide_again-IsEarned :
      (s : ObjectPubState) (labels : Text) (current last : ℕ)
      → (decide_again g s labels current last).1 ≡ bypass
      → IsEarned g
          (refill_tokens g s current)
          labels
          (if leb last current then current - last else 0)
        × ((if leb last current then current - last else 0) < g.capture_interval_ns)
  unfolding decide_again
  decide_again-IsEarned s labels current last =
      let elapsed = if leb last current then current - last else 0 in
      let P = λ (r : ObjectPubState × PubDecisionType).
        r.1 ≡ bypass
        → IsEarned g (refill_tokens g s current) labels elapsed
          × (elapsed < g.capture_interval_ns) in
      if_split P (g.capture_interval_ns == 0) _ _ (λ h e. absurd (cc))
        (λ a.
          if_split P (not (is_time last) || not (is_time current)) _ _ (λ h e. absurd (cc))
            (λ b.
              if_split P (leb g.capture_interval_ns elapsed) _ _ (λ h e. absurd (cc))
                (λ h e. (
                  decide_within-IsEarned (refill_tokens g s current) labels elapsed e,
                  ground arith,
                ))))

decide_capture-again :
    (g : CropConfig) (old : ObjectPubState) (labels : Text) (current_pts frame_num last : ℕ)
    → (decide_capture g old labels current_pts frame_num (some last)).1 ≡ bypass
    → (g.k_on_frames ≤ (observe g old frame_num).on_stable_count)
      × ((decide_again g (observe g old frame_num) labels current_pts last).1 ≡ bypass)
unfolding decide_capture decide_stable
decide_capture-again g old labels current_pts frame_num last =
    let s = observe g old frame_num in
    let P = λ (r : ObjectPubState × PubDecisionType).
      r.1 ≡ bypass
      → (g.k_on_frames ≤ s.on_stable_count)
        × ((decide_again g s labels current_pts last).1 ≡ bypass) in
    if_split P (ltb s.on_stable_count g.k_on_frames) _ _ (λ h e. absurd (cc))
      (λ h e. (ground arith, e))

-- A capture out of turn of an object that was captured before is taken only in less than the
-- capture interval but not less than the gap since then, while the object has been seen in enough
-- frames, its labels differ from those of the last capture and have done so in enough frames, and
-- a token is left for it.
pub decide_capture_bypass :
    (g : CropConfig) (old : ObjectPubState) (labels : Text) (current_pts frame_num last : ℕ)
    → (decide_capture g old labels current_pts frame_num (some last)).1 ≡ bypass
    → let s = observe g old frame_num in
      let filled = refill_tokens g s current_pts in
      let elapsed = if leb last current_pts then current_pts - last else 0 in
      (g.bypass_min_gap_ns ≤ elapsed)
      × (elapsed < g.capture_interval_ns)
      × (g.k_on_frames ≤ s.on_stable_count)
      × ((labels == old.last_sgie_labels) ≡ false)
      × (g.k_label_frames ≤ (note_pending g filled labels).pending_label_count)
      × (ltb_ℤ (pos 0) filled.bypass_tokens ≡ true)
unfolding observe
decide_capture_bypass g old labels current_pts frame_num last e =
    let due = decide_capture-again g old labels current_pts frame_num last e in
    let s = observe g old frame_num in
    let earned = decide_again-IsEarned g s labels current_pts last due.1 in
    (
      earned.0.rested,
      earned.1,
      due.0,
      rw (← refill_tokens-labels g s current_pts) earned.0.changed,
      earned.0.stable,
      earned.0.paid,
    )
