-- ===== src/Sources/Health/Shown.antt =====
-- The bookkeeping of the streams where a stream's state is rewritten.
pub mod Calls
use vms_engine.Common.Map.{
  length-insert_old, Map, find, insert, find-insert, find-insert_self, IsDistinct,
  insert-IsDistinct,
}
use vms_engine.Common.{
  ℕ, ◌+◌, ◌<◌, ◌≡◌, refl, sym, ap, ◌∙◌, subst, inl, inr, Bool, true, false, ◌&&◌, ◌||◌, not, Option,
  some, none, List, [], ◌∷◌, Text, nat_eq, text_eq, text_beq_iff, nat_beq_iff, ◌==◌, arith, In,
  length, Bool-cases, if_keep, if_split, if◌then◌else◌, ℤ, codes,
}
use vms_engine.Sources.Slots.{
  Pad, placeholder_pad, live_pad, FixedSlot, StreamSlot, Manager, max_slots_from_config,
  switch_slot_to_live, switch_slot_to_placeholder, switch_if,
}
use vms_engine.Sources.Streams.Invariant.{IsWell, IsReady, pad_for, switch-IsReady}
use vms_engine.Sources.Streams.Preservation.{IsWellManaged, switch-placeholder}
use vms_engine.Sources.Health.{
  find_stream_by_source_index, restore_live, note_found, note_stream_activity, is_healthy,
  stall_switched, poll_stream, poll_streams, poll_stream_health,
}

-- A stream is rewritten, with the same index and the same camera.
module _ (max : ℕ) (free : List ℕ) (streams : Map Text StreamSlot) (slots slots' : Map ℕ FixedSlot)
    (key : Text) (s s' : StreamSlot) where
  old :
      (k : Text) (t : StreamSlot)
      → (key == k) ≡ false
      → find k (insert key s' streams) ≡ some t
      → find k streams ≡ some t
  old k t q p = sym (find-insert key k s' streams ∙ rw q) ∙ p

  fresh :
      (k : Text) (t : StreamSlot)
      → (key == k) ≡ true
      → find k (insert key s' streams) ≡ some t
      → t ≡ s'
  fresh k t q p = ground (arith, find-insert key k s' streams)

  -- The stream before the change: its index and its camera are those of the stream after it.
  before :
      find key streams ≡ some s
      → s'.source_index ≡ s.source_index
      → s'.camera_id ≡ s.camera_id
      → (k : Text) (t : StreamSlot) → find k (insert key s' streams) ≡ some t
      → (u : StreamSlot) × (find k streams ≡ some u)
        × (t.source_index ≡ u.source_index)
        × (t.camera_id ≡ u.camera_id)
  before here at name k t p = elim (Bool-cases (key == k)) [
    | inl q ↦
        let same = fresh k t q p in
        (
          s,
          subst (λ x. find x streams ≡ some s) ((text_beq_iff key k).0 q) here,
          ap (λ x. x.source_index) same ∙ at,
          ap (λ x. x.camera_id) same ∙ name,
        )
    | inr q ↦ (t, old k t q p, refl, refl)
  ]

  IsWell-replace :
      IsWell max free streams slots
      → find key streams ≡ some s
      → s'.source_index ≡ s.source_index
      → s'.camera_id ≡ s.camera_id
      → ((i : ℕ) → i < max → (x : FixedSlot) × (find i slots' ≡ some x) × IsReady x)
      → ((k : Text) (t : StreamSlot) (x : FixedSlot)
          → find k (insert key s' streams) ≡ some t
          → find t.source_index slots' ≡ some x
          → x.active_pad ≡ pad_for t.using_placeholder)
      → IsWell max free (insert key s' streams) slots'
  IsWell-replace w here at name ready shown = record {
    sorted = w.sorted;
    free_range = w.free_range;
    used_range = λ k t p.
        let (u, f, e, n) = before here at name k t p in
        subst (λ i. i < max) (sym e) (w.used_range k u f);
    used_once = λ k t p m.
        let (u, f, e, n) = before here at name k t p in
        w.used_once k u f (subst (λ i. In i free) e m);
    named = λ k t p. let (u, f, e, n) = before here at name k t p in n ∙ w.named k u f;
    apart = λ j k t u p r e.
        let (a, f, g, n) = before here at name j t p in
        let (b, f', g', n') = before here at name k u r in w.apart j k a b f f' (sym g ∙ e ∙ g');
    ready = ready;
    shown = shown;
    distinct = insert-IsDistinct key s' streams w.distinct;
    count = omega (arith, length-insert_old key s s' streams here, w.count);
  }

  -- The slots stay, and so does the pad that the stream says.
  pub IsWell-touch :
      IsWell max free streams slots
      → slots' ≡ slots
      → find key streams ≡ some s
      → s'.source_index ≡ s.source_index
      → s'.camera_id ≡ s.camera_id
      → s'.using_placeholder ≡ s.using_placeholder
      → IsWell max free (insert key s' streams) slots'
  IsWell-touch w e here at name same =
      IsWell-replace w here at name
        (subst (λ z. (i : ℕ) → i < max → (x : FixedSlot) × (find i z ≡ some x) × IsReady x) (sym e)
          w.ready)
        (λ k t x p r. elim (Bool-cases (key == k)) [
          | inl q ↦
              let f = fresh k t q p in
              w.shown key s x here (
                ap (λ i. find i slots) (sym at ∙ ap (λ u. u.source_index) (sym f))
                ∙ ap (find t.source_index) (sym e)
                ∙ r)
              ∙ ap pad_for (sym same ∙ ap (λ u. u.using_placeholder) (sym f))
          | inr q ↦ w.shown k t x (old k t q p) (ap (find t.source_index) (sym e) ∙ r)
        ])

  -- The slot of the stream gets the pad that the stream says now.
  pub IsWell-show :
      (slot : FixedSlot) (pad : Pad)
      → IsWell max free streams slots
      → slots' ≡ insert s.source_index (record slot { active_pad = pad }) slots
      → find s.source_index slots ≡ some slot
      → find key streams ≡ some s
      → s'.source_index ≡ s.source_index
      → s'.camera_id ≡ s.camera_id
      → pad ≡ pad_for s'.using_placeholder
      → IsWell max free (insert key s' streams) slots'
  IsWell-show slot pad w e there here at name shows =
      IsWell-replace w here at name
        (subst (λ z. (i : ℕ) → i < max → (x : FixedSlot) × (find i z ≡ some x) × IsReady x) (sym e)
          (switch-IsReady max s.source_index slot pad slots there w.ready))
        (λ k t x p r. elim (Bool-cases (key == k)) [
          | inl q ↦
              let f = fresh k t q p in
              let found : some x ≡ some (record slot { active_pad = pad }) =
                sym r
                ∙ ap (find t.source_index) e
                ∙ ap (λ i. find i (insert s.source_index (record slot { active_pad = pad }) slots))
                    (ap (λ u. u.source_index) f ∙ at)
                ∙ find-insert_self s.source_index (record slot { active_pad = pad }) slots in
              let same : x ≡ record slot { active_pad = pad } = cc found in
              ap (λ z. z.active_pad) same ∙ shows ∙ ap (λ u. pad_for u.using_placeholder) (sym f)
          | inr q ↦ elim (Bool-cases (s.source_index == t.source_index)) [
            | inl a ↦ absurd (
                ground (
                  arith,
                  text_beq_iff key k,
                  w.apart key k s t here (old k t q p) ((nat_beq_iff _ _).0 a),
                ))
            | inr a ↦ w.shown k t x (old k t q p) (
                sym (
                  find-insert s.source_index t.source_index (record slot { active_pad = pad }) slots
                  ∙ rw a)
                ∙ ap (find t.source_index) (sym e)
                ∙ r)
          ]
        ])

pub find_stream-find :
    (i : ℕ) (m : Map Text StreamSlot) (k : Text) (s : StreamSlot)
    → IsDistinct m
    → find_stream_by_source_index i m ≡ some (k, s)
    → (find k m ≡ some s) × (s.source_index ≡ i)
unfolding find_stream_by_source_index find
find_stream-find i [] k s d e = absurd (cc)
find_stream-find i ((j, t) ∷ m) k s d e =
    ground
      (arith, text_beq_iff j k, nat_beq_iff t.source_index i, find_stream-find i m k s d.1, d.0)
