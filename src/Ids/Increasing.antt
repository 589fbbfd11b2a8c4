-- ===== src/Ids/Increasing.antt =====
-- The values of a generator grow with its calls, and their fields can be read.
use vms_engine.Common.{
  ℕ, zero, suc, ◌+◌, ◌*◌, ◌/◌, ◌%◌, ◌≤◌, ◌<◌, ◌≡◌, subst, false, Option, none, some, List, ◌∷◌,
  nat_eq, nat_beq_iff, ◌==◌, if_split, arith,
}
use vms_engine.Ids.{
  Generator, wait_from, after_wait, next_stamp, layout, with_bytes, generate_bytes,
}

-- The first six bytes, and the two after them without the version.
unfoldable pub time_of : List ℕ → ℕ
time_of (a ∷ b ∷ c ∷ d ∷ e ∷ f ∷ rest) = ((((a * 256 + b) * 256 + c) * 256 + d) * 256 + e) * 256 + f
time_of _ = 0

unfoldable pub counter_of : List ℕ → ℕ
counter_of (a ∷ b ∷ c ∷ d ∷ e ∷ f ∷ g ∷ h ∷ rest) = g % 16 * 256 + h
counter_of _ = 0

unfoldable pub version_of : List ℕ → ℕ
version_of (a ∷ b ∷ c ∷ d ∷ e ∷ f ∷ g ∷ rest) = g / 16
version_of _ = 0

unfoldable pub variant_of : List ℕ → ℕ
variant_of (a ∷ b ∷ c ∷ d ∷ e ∷ f ∷ g ∷ h ∷ i ∷ rest) = i / 64
variant_of _ = 0

time-layout : (ts counter r1 r2 : ℕ) → ts < 281474976710656 → time_of (layout ts counter r1 r2) ≡ ts
unfolding time_of layout
time-layout ts counter r1 r2 h = omega arith

counter-layout :
    (ts counter r1 r2 : ℕ) → counter < 4096 → counter_of (layout ts counter r1 r2) ≡ counter
unfolding counter_of layout
counter-layout ts counter r1 r2 h = omega arith

-- The bytes tell the version 7, the variant 2, and the time and the counter that they were made
-- of, if these fit in 48 and 12 bits.
pub parts-layout :
    (ts counter r1 r2 : ℕ)
    → ts < 281474976710656
    → counter < 4096
    → (time_of (layout ts counter r1 r2) ≡ ts)
      × (counter_of (layout ts counter r1 r2) ≡ counter)
      × (version_of (layout ts counter r1 r2) ≡ 7)
      × (variant_of (layout ts counter r1 r2) ≡ 2)
unfolding version_of variant_of layout
parts-layout ts counter r1 r2 h k =
    (time-layout ts counter r1 r2 h, counter-layout ts counter r1 r2 k, omega arith, omega arith)

-- The clock does not go back.
abbrev pub IsForward : (ℕ → ℕ) → Type 0
IsForward clock = (n : ℕ) → clock n ≤ clock (n + 1)

-- Between calls: the last time is not ahead of the clock, and the counter fits.
pub record IsReady (clock : ℕ → ℕ) (s : Generator) : Type 0 where
  pub behind : s.last_timestamp_ms ≤ clock s.reads
  pub fits : s.sequence_counter < 4096

-- Time and counter as one number.
abbrev pub stamp : Generator → ℕ
stamp s = s.last_timestamp_ms * 4096 + s.sequence_counter

beq-false : {a b : ℕ} → (a == b) ≡ false → ¬ (a ≡ b)
beq-false {a} {b} e p = let p = (nat_beq_iff a b).1 p in cc

-- A counter that does not wrap grows.
grows :
    (t n : ℕ) → ((n + 1) % 4096 == 0) ≡ false → n < 4096 → t * 4096 + n < t * 4096 + (n + 1) % 4096
grows t n e fits =
    let counted : ¬ ((n + 1) % 4096 ≡ 0) = beq-false e in
    let bound : n + 1 < 4096 = omega arith in omega arith

-- A later time outweighs any counter.
overtakes :
    (clock : ℕ → ℕ) (s : Generator)
    → (clock s.reads == s.last_timestamp_ms) ≡ false
    → s.last_timestamp_ms ≤ clock s.reads
    → s.sequence_counter < 4096
    → stamp s < clock s.reads * 4096 + 0
overtakes clock s e behind fits =
    let other : ¬ (clock s.reads ≡ s.last_timestamp_ms) = beq-false e in
    let later : s.last_timestamp_ms < clock s.reads = omega arith in omega arith

-- What a call leaves behind, if it ends.
abbrev Advances : (ℕ → ℕ) → Generator → Option Generator → Type 0
Advances clock s none = Unit
Advances clock s (some t) = IsReady clock t × (stamp s < stamp t)

module _ (clock : ℕ → ℕ) (forward : IsForward clock) where
  -- The time that ends the wait is later.
  Later : ℕ → Option (ℕ × ℕ) → Type 0
  Later last none = Unit
  Later last (some (ts, reads)) = (last < ts) × (ts ≤ clock reads)

  wait_from-Later :
      (rounds last reads : ℕ) → last ≤ clock reads → Later last (wait_from clock rounds last reads)
  unfolding wait_from Later
  wait_from-Later zero last reads h = tt
  wait_from-Later (suc rounds) last reads h =
      let step = forward reads in
      if_split (Later last) (clock reads == last) _ _
        (λ e. wait_from-Later rounds last (reads + 1) (omega arith)) (λ e. (ground arith, step))

  after_wait-Advances :
      (s : Generator) (r : Option (ℕ × ℕ))
      → s.sequence_counter < 4096
      → Later s.last_timestamp_ms r
      → Advances clock s (after_wait s r)
  unfolding Later
  after_wait-Advances s none fits h = tt
  after_wait-Advances s (some (ts, reads)) fits h =
      (record { behind = h.1; fits = omega arith }, omega (arith, h.0))

  next_stamp-Advances :
      (rounds : ℕ) (s : Generator) → IsReady clock s → Advances clock s (next_stamp clock rounds s)
  unfolding next_stamp
  next_stamp-Advances rounds s h =
      let P = Advances clock s in
      let step = forward s.reads in
      let behind = h.behind in
      let fits = h.fits in
      if_split P (clock s.reads == s.last_timestamp_ms) _ _
        (λ e.
          let same : clock s.reads ≡ s.last_timestamp_ms =
            (nat_beq_iff (clock s.reads) s.last_timestamp_ms).0 e in
          if_split P ((s.sequence_counter + 1) % 4096 == 0) _ _
            (λ wrapped. rw same (
              after_wait-Advances s (wait_from clock rounds s.last_timestamp_ms (s.reads + 1)) fits
                (wait_from-Later rounds s.last_timestamp_ms (s.reads + 1) (omega arith))))
            (λ counted. (
              record { behind = omega arith; fits = omega arith },
              grows s.last_timestamp_ms s.sequence_counter counted fits,
            )))
        (λ e. (record { behind = step; fits = omega arith }, overtakes clock s e behind fits))

-- The values of a generator can be compared: the time and the counter that the bytes tell.
abbrev pub order_of : List ℕ → ℕ
order_of bytes = time_of bytes * 4096 + counter_of bytes

-- What a call gives back, if it ends: a ready generator whose stamp is that of the bytes.
abbrev Gives : (ℕ → ℕ) → Generator → Option (Generator × List ℕ) → Type 0
Gives clock s none = Unit
Gives clock s (some (t, bytes)) =
    IsReady clock t
    × (stamp s < stamp t)
    × ((order_of bytes ≡ stamp t) × (version_of bytes ≡ 7) × (variant_of bytes ≡ 2))

with_bytes-Gives :
    (clock random : ℕ → ℕ) (s : Generator) (r : Option Generator)
    → ((n : ℕ) → clock n < 281474976710656)
    → IsForward clock
    → Advances clock s r
    → Gives clock s (with_bytes clock random r)
with_bytes-Gives clock random s none small forward h = tt
with_bytes-Gives clock random s (some t) small forward h =
    let parts =
      parts-layout t.last_timestamp_ms t.sequence_counter (random t.draws) (random (t.draws + 1))
        (let b = h.0.behind in let u = small t.reads in omega arith) h.0.fits in
    (
      record { behind = h.0.behind; fits = h.0.fits },
      h.1,
      (let time = parts.0 in let counter = parts.1 in cc, parts.2, parts.3),
    )

module _ (clock random : ℕ → ℕ) (forward : IsForward clock)
    (small : (n : ℕ) → clock n < 281474976710656) where
  generate_bytes-Gives :
      (rounds : ℕ) (s : Generator)
      → IsReady clock s
      → Gives clock s (generate_bytes clock random rounds s)
  unfolding generate_bytes
  generate_bytes-Gives rounds s h =
      with_bytes-Gives clock random s _ small forward (next_stamp-Advances clock forward rounds s h)

-- Of two calls that follow one another from a ready state and give values, the second tells a
-- later time, or the same time and a larger counter; it has the version 7 and the variant 2. The
-- clock does not go back and its milliseconds fit in 48 bits.
pub generate_bytes-increasing :
    (clock random : ℕ → ℕ) (rounds : ℕ) (s t u : Generator) (first second : List ℕ)
    → IsForward clock
    → ((n : ℕ) → clock n < 281474976710656)
    → IsReady clock s
    → generate_bytes clock random rounds s ≡ some (t, first)
    → generate_bytes clock random rounds t ≡ some (u, second)
    → (order_of first < order_of second) × (version_of second ≡ 7) × (variant_of second ≡ 2)
generate_bytes-increasing clock random rounds s t u first second forward small h e f =
    let one : Gives clock s (some (t, first)) =
      subst (Gives clock s) e (generate_bytes-Gives clock random forward small rounds s h) in
    let two : Gives clock t (some (u, second)) =
      subst (Gives clock t) f (generate_bytes-Gives clock random forward small rounds t one.0) in
    let told_first = one.2.0 in
    let told_second = two.2.0 in
    let grown = two.1 in
    let ordered : order_of first < order_of second =
      omega (arith, told_first, told_second, grown) in
    (ordered, two.2.1, two.2.2)
