-- ===== src/Sources/Health/Shown/Calls.antt =====
-- Activity and health polling keep the bookkeeping of the streams.
use vms_engine.Common.Map.{Map, find, insert, find-insert, find-insert_self, IsDistinct}
use vms_engine.Common.{
  none-ne-some, ℕ, ◌≡◌, refl, sym, ap, ◌∙◌, subst, inl, inr, true, false, ◌&&◌, Option, some, none,
  [], ◌∷◌, Text, nat_eq, text_eq, text_beq_iff, ◌==◌, arith, Bool-cases, if_keep, ℤ,
}
use vms_engine.Sources.Slots.{
  placeholder_pad, live_pad, FixedSlot, StreamSlot, Manager, switch_slot_to_live,
  switch_slot_to_placeholder,
}
use vms_engine.Sources.Streams.Invariant.{IsReady}
use vms_engine.Sources.Streams.Preservation.{IsWellManaged, switch-placeholder}
use vms_engine.Sources.Health.{
  find_stream_by_source_index, restore_live, note_found, note_stream_activity, is_healthy,
  stall_switched, poll_stream, poll_streams, poll_stream_health,
}
use vms_engine.Sources.Health.Shown.{IsWell-touch, IsWell-show, find_stream-find}

-- A switch to the live pad works on every slot that is ready.
switch-live :
    (m : Manager) (i : ℕ) (slot : FixedSlot)
    → find i m.fixed_slots ≡ some slot
    → IsReady slot
    → switch_slot_to_live m i ≡ (
      true,
      record m { fixed_slots = insert i (record slot { active_pad = live_pad }) m.fixed_slots },
    )
unfolding switch_slot_to_live
switch-live m i slot f r =
    let possible : (slot.selector && slot.live_sink_pad) ≡ true = ground arith in
    rw (f, switch_slot_to_live) (rw possible)

restore_live-IsWell :
    (m : Manager) (k : Text) (s : StreamSlot)
    → IsWellManaged m
    → find k m.streams ≡ some s
    → IsWellManaged (restore_live k s (switch_slot_to_live m s.source_index))
unfolding restore_live
restore_live-IsWell m k s w here =
    let (slot, there, r) = w.ready s.source_index (w.used_range k s here) in
    subst (λ x. IsWellManaged (restore_live k s x))
      (sym (switch-live m s.source_index slot there r))
      (IsWell-show _ _ _ _ _ k s _ slot live_pad w refl there here refl refl refl)

note_found-IsWell :
    (m : Manager) (now : ℤ) (i : ℕ) (o : Option (Text × StreamSlot))
    → IsWellManaged m
    → find_stream_by_source_index i m.streams ≡ o
    → IsWellManaged (note_found m now o)
unfolding note_found
note_found-IsWell m now i none w e = w
note_found-IsWell m now i (some (k, s)) w e =
    let here = (find_stream-find i m.streams k s w.distinct e).0 in
    let s' : StreamSlot = record s { last_buffer_time_us = now } in
    let m' : Manager = record m { streams = insert k s' m.streams } in
    let w' : IsWellManaged m' = IsWell-touch _ _ _ _ _ k s s' w refl here refl refl refl in
    if_keep (λ (x : Manager). IsWellManaged x) s.using_placeholder _ _
      (restore_live-IsWell m' k s' w' (find-insert_self k s' m.streams)) w'

-- A buffer of a source keeps the bookkeeping: in particular, the slot of the stream shows the
-- live pad exactly if the stream is marked as live.
pub note_stream_activity-IsWell :
    (m : Manager) (i : ℕ) (now : ℤ) → IsWellManaged m → IsWellManaged (note_stream_activity m i now)
unfolding note_stream_activity
note_stream_activity-IsWell m i now w = note_found-IsWell m now i _ w refl

-- The streams that the loop has not come to are as they were.
abbrev Pending : Map Text StreamSlot → Manager → Type 0
Pending streams m =
    (k : Text) (s : StreamSlot) → find k streams ≡ some s → find k m.streams ≡ some s

record Polled (k : Text) (m r : Manager) : Type 0 where
  well : IsWellManaged r
  others :
      (j : Text) (s : StreamSlot)
      → (k == j) ≡ false
      → find j m.streams ≡ some s
      → find j r.streams ≡ some s

stall_switched-Polled :
    (m : Manager) (k : Text) (s : StreamSlot)
    → IsWellManaged m
    → find k m.streams ≡ some s
    → Polled k m (stall_switched k s (switch_slot_to_placeholder m s.source_index))
unfolding stall_switched
stall_switched-Polled m k s w here =
    let (slot, there, r) = w.ready s.source_index (w.used_range k s here) in
    subst (λ x. Polled k m (stall_switched k s x))
      (sym (switch-placeholder m s.source_index slot there r))
      (record {
        well = IsWell-show _ _ _ _ _ k s _ slot placeholder_pad w refl there here refl refl refl;
        others = λ j t q p. find-insert k j _ m.streams ∙ rw q p;
      })

poll_stream-Polled :
    (now : ℤ) (k : Text) (s : StreamSlot) (m : Manager)
    → IsWellManaged m
    → find k m.streams ≡ some s
    → Polled k m (poll_stream now k s m)
unfolding poll_stream
poll_stream-Polled now k s m w here =
    if_keep (Polled k m) (is_healthy m.config now s) _ _
      (record { well = w; others = λ j t q p. p }) (stall_switched-Polled m k s w here)

first-find : (k : Text) (s : StreamSlot) (m : Map Text StreamSlot) → find k ((k, s) ∷ m) ≡ some s
unfolding find
first-find k s m = rw ((text_beq_iff k k).1 refl)

rest-find :
    (k j : Text) (s : StreamSlot) (m : Map Text StreamSlot)
    → (k == j) ≡ false
    → find j ((k, s) ∷ m) ≡ find j m
unfolding find
rest-find k j s m q = rw q

apart_from :
    (k j : Text) (t : StreamSlot) (m : Map Text StreamSlot)
    → find k m ≡ none
    → find j m ≡ some t
    → (k == j) ≡ false
apart_from k j t m n f = elim (Bool-cases (k == j)) [
  | inl q ↦
      let same : k ≡ j = (text_beq_iff k j).0 q in
      absurd (none-ne-some t (sym n ∙ ap (λ x. find x m) same ∙ f))
  | inr q ↦ q
]

poll_streams-IsWell :
    (now : ℤ) (streams : Map Text StreamSlot) (m : Manager)
    → IsDistinct streams
    → Pending streams m
    → IsWellManaged m
    → IsWellManaged (poll_streams now streams m)
unfolding poll_streams
poll_streams-IsWell now [] m d p w = w
poll_streams-IsWell now ((k, s) ∷ streams) m d p w =
    let turn = poll_stream-Polled now k s m w (p k s (first-find k s streams)) in
    poll_streams-IsWell now streams (poll_stream now k s m) d.1
      (λ j t f.
        let q = apart_from k j t streams d.0 f in
        turn.others j t q (p j t (rest-find k j s streams q ∙ f)))
      turn.well

-- A poll of the health keeps the bookkeeping: a stream that it marks as stalled has the
-- placeholder on its slot, and every other slot stays as it is marked.
pub poll_stream_health-IsWell :
    (m : Manager) (now : ℤ) → IsWellManaged m → IsWellManaged (poll_stream_health m now)
unfolding poll_stream_health
poll_stream_health-IsWell m now w = poll_streams-IsWell now m.streams m w.distinct (λ k s e. e) w
