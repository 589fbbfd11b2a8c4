-- ===== src/Sources/Streams/Invariant.antt =====
-- The bookkeeping of the streams: every index of a slot is either free or that of one stream, the
-- free ones are in order, and each stream's slot shows the pad that the stream says.
use vms_engine.Common.Map.{
  Map, find, insert, erase, find-insert, find-erase, IsDistinct, insert-IsDistinct,
  erase-IsDistinct, length-insert_new, length-erase,
}
use vms_engine.Common.{
  ℕ, ◌+◌, ◌<◌, ◌≡◌, ◌≢◌, refl, sym, ◌∙◌, subst, inl, inr, Bool, true, false, none, some, List, ◌∷◌,
  Text, nat_eq, text_eq, text_beq_iff, nat_beq_iff, ◌==◌, arith, In, All-at, length, Bool-cases,
}
use vms_engine.Sources.Slots.{Pad, placeholder_pad, live_pad, FixedSlot, StreamSlot, insert_sorted}
use vms_engine.Sources.Slots.Indexes.{
  Ascending, length-insert_sorted, In-insert_sorted, insert_sorted-Ascending,
}

-- The pad that a stream with this flag is shown by.
abbrev pub pad_for : Bool → Pad
pad_for true = placeholder_pad
pad_for false = live_pad

-- No pointer of the slot is null.
abbrev pub IsReady : FixedSlot → Type 0
IsReady slot =
    (slot.slot_bin ≡ true)
    × (slot.selector ≡ true)
    × (slot.placeholder_sink_pad ≡ true)
    × (slot.live_sink_pad ≡ true)

pub record IsWell (max : ℕ) (free : List ℕ) (streams : Map Text StreamSlot)
    (slots : Map ℕ FixedSlot) : Type 0 where
  pub sorted : Ascending free
  pub free_range : (i : ℕ) → In i free → i < max
  pub used_range : (k : Text) (s : StreamSlot) → find k streams ≡ some s → s.source_index < max
  pub used_once : (k : Text) (s : StreamSlot) → find k streams ≡ some s → ¬ In s.source_index free
  pub named : (k : Text) (s : StreamSlot) → find k streams ≡ some s → s.camera_id ≡ k
  pub apart :
      (j k : Text) (s t : StreamSlot)
      → find j streams ≡ some s
      → find k streams ≡ some t
      → s.source_index ≡ t.source_index
      → j ≡ k
  pub ready : (i : ℕ) → i < max → (slot : FixedSlot) × (find i slots ≡ some slot) × IsReady slot
  pub shown :
      (k : Text) (s : StreamSlot) (slot : FixedSlot)
      → find k streams ≡ some s
      → find s.source_index slots ≡ some slot
      → slot.active_pad ≡ pad_for s.using_placeholder
  pub distinct : IsDistinct streams
  pub count : length free + length streams ≡ max

-- Setting the active pad of a slot leaves every slot ready.
pub switch-IsReady :
    (max i : ℕ) (slot : FixedSlot) (pad : Pad) (slots : Map ℕ FixedSlot)
    → find i slots ≡ some slot
    → ((j : ℕ) → j < max → (x : FixedSlot) × (find j slots ≡ some x) × IsReady x)
    → (j : ℕ) → j < max
    → (x : FixedSlot) × (find j (insert i (record slot { active_pad = pad }) slots) ≡ some x)
      × IsReady x
switch-IsReady max i slot pad slots f h j l = elim (Bool-cases (i == j)) [
  | inl q ↦
      let (x, g, r) = h j l in
      let same : x ≡ slot = ground (arith, nat_beq_iff i j) in
      (record slot { active_pad = pad }, find-insert i j _ slots ∙ rw q, subst IsReady same r)
  | inr q ↦ let (x, g, r) = h j l in (x, find-insert i j _ slots ∙ (rw q g), r)
]

-- A new stream takes the first free index, and its slot shows the placeholder.
pub IsWell-insert :
    (max i : ℕ) (free : List ℕ) (streams : Map Text StreamSlot) (slots : Map ℕ FixedSlot)
    (key : Text) (s : StreamSlot) (slot : FixedSlot)
    → IsWell max (i ∷ free) streams slots
    → find key streams ≡ none
    → find i slots ≡ some slot
    → s.source_index ≡ i
    → s.camera_id ≡ key
    → s.using_placeholder ≡ true
    → IsWell max free
        (insert key s streams)
        (insert i (record slot { active_pad = placeholder_pad }) slots)
IsWell-insert max i free streams slots key s slot w new f at name waits = record {
  sorted = w.sorted.1;
  free_range = λ j m. w.free_range j (inr m);
  used_range = λ k t p. elim (Bool-cases (key == k)) [
    | inl q ↦ ground (arith, fresh k t q p, w.free_range i (inl refl))
    | inr q ↦ w.used_range k t (old k t q p)
  ];
  used_once = λ k t p m. elim (Bool-cases (key == k)) [
    | inl q ↦ ground (arith, fresh k t q p, All-at (λ j. i < j) t.source_index free w.sorted.0 m)
    | inr q ↦ w.used_once k t (old k t q p) (inr m)
  ];
  named = λ k t p. elim (Bool-cases (key == k)) [
    | inl q ↦ ground (arith, fresh k t q p, text_beq_iff key k)
    | inr q ↦ w.named k t (old k t q p)
  ];
  apart = λ j k t u p r e. elim (Bool-cases (key == j)) [
    | inl q ↦ elim (Bool-cases (key == k)) [
      | inl q' ↦ sym ((text_beq_iff key j).0 q) ∙ (text_beq_iff key k).0 q'
      | inr q' ↦ absurd (ground (arith, fresh j t q p, index_old k u (old k u q' r)))
    ]
    | inr q ↦ elim (Bool-cases (key == k)) [
      | inl q' ↦ absurd (ground (arith, fresh k u q' r, index_old j t (old j t q p)))
      | inr q' ↦ w.apart j k t u (old j t q p) (old k u q' r) e
    ]
  ];
  ready = switch-IsReady max i slot placeholder_pad slots f w.ready;
  shown = λ k t x p r. elim (Bool-cases (key == k)) [
    | inl q ↦ ground (
      arith,
      fresh k t q p,
      find-insert i t.source_index (record slot { active_pad = placeholder_pad }) slots,
      nat_beq_iff i t.source_index,
    )
    | inr q ↦ w.shown k t x (old k t q p) (
        ground (
          arith,
          index_old k t (old k t q p),
          find-insert i t.source_index (record slot { active_pad = placeholder_pad }) slots,
          nat_beq_iff i t.source_index,
        ))
  ];
  distinct = insert-IsDistinct key s streams w.distinct;
  count = omega (arith, length-insert_new key s streams new, w.count);
}
  where
    old :
        (k : Text) (t : StreamSlot)
        → (key == k) ≡ false
        → find k (insert key s streams) ≡ some t
        → find k streams ≡ some t
    old k t q p = sym (find-insert key k s streams ∙ rw q) ∙ p

    fresh :
        (k : Text) (t : StreamSlot)
        → (key == k) ≡ true
        → find k (insert key s streams) ≡ some t
        → t ≡ s
    fresh k t q p = ground (arith, find-insert key k s streams)

    index_old : (k : Text) (t : StreamSlot) → find k streams ≡ some t → t.source_index ≢ i
    index_old k t p e = w.used_once k t p (inl e)

-- A stream that goes gives its index back.
pub IsWell-erase :
    (max : ℕ) (free : List ℕ) (streams : Map Text StreamSlot) (slots : Map ℕ FixedSlot) (key : Text)
    (s : StreamSlot) (slot : FixedSlot)
    → IsWell max free streams slots
    → find key streams ≡ some s
    → find s.source_index slots ≡ some slot
    → IsWell max
        (insert_sorted s.source_index free)
        (erase key streams)
        (insert s.source_index (record slot { active_pad = placeholder_pad }) slots)
IsWell-erase max free streams slots key s slot w here f = record {
  sorted = insert_sorted-Ascending s.source_index free (w.used_once key s here) w.sorted;
  free_range = λ j m. elim (In-insert_sorted j s.source_index free m) [
    | inl e ↦ subst (λ n. n < max) (sym e) (w.used_range key s here)
    | inr n ↦ w.free_range j n
  ];
  used_range = λ k t p. w.used_range k t (old k t p);
  used_once = λ k t p m. elim (In-insert_sorted t.source_index s.source_index free m) [
    | inl e ↦ other k t p e
    | inr n ↦ w.used_once k t (old k t p) n
  ];
  named = λ k t p. w.named k t (old k t p);
  apart = λ j k t u p r. w.apart j k t u (old j t p) (old k u r);
  ready = switch-IsReady max s.source_index slot placeholder_pad slots f w.ready;
  shown = λ k t x p r. w.shown k t x (old k t p) (
      ground (
        arith,
        other k t p,
        find-insert s.source_index t.source_index (record slot { active_pad = placeholder_pad })
            slots,
        nat_beq_iff s.source_index t.source_index,
      ));
  distinct = erase-IsDistinct key streams w.distinct;
  count = omega (
    arith,
    length-erase key streams s w.distinct here,
    length-insert_sorted s.source_index free,
    w.count,
  );
}
  where
    old :
        (k : Text) (t : StreamSlot) → find k (erase key streams) ≡ some t → find k streams ≡ some t
    old k t p = ground (arith, find-erase key k streams)

    -- No other stream has the index.
    other :
        (k : Text) (t : StreamSlot)
        → find k (erase key streams) ≡ some t
        → t.source_index ≢ s.source_index
    other k t p e =
        let same : k ≡ key = w.apart k key t s (old k t p) here e in
        ground (arith, find-erase key k streams, text_beq_iff key k)
