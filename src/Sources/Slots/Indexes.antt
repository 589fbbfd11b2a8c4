-- ===== src/Sources/Slots/Indexes.antt =====
-- The free indexes stay in order, so that the lowest is handed out first and none twice.
use vms_engine.Common.{
  ℕ, ◌+◌, ◌<◌, ◌≡◌, ◌≢◌, refl, ◌⊎◌, inl, inr, List, [], ◌∷◌, leb, arith, In, All, All-mono, length,
  Bool-cases,
}
use vms_engine.Sources.Slots.{insert_sorted, sort}

-- Strictly ascending.
abbrev pub Ascending : List ℕ → Type 0
Ascending [] = Unit
Ascending (i ∷ is) = All (λ j. i < j) is × Ascending is

pub length-insert_sorted : (i : ℕ) (is : List ℕ) → length (insert_sorted i is) ≡ length is + 1
unfolding insert_sorted
length-insert_sorted i [] = omega arith
length-insert_sorted i (j ∷ js) = ground (arith, length-insert_sorted i js)

pub In-insert_sorted : (j i : ℕ) (is : List ℕ) → In j (insert_sorted i is) → (j ≡ i) ⊎ In j is
unfolding insert_sorted
In-insert_sorted j i [] h = h
In-insert_sorted j i (k ∷ ks) h = elim (Bool-cases (leb i k)) [
  | inl q ↦ rw q at h
  | inr q ↦ elim (rw q at h) [
    | inl e ↦ inr (inl e)
    | inr m ↦ elim (In-insert_sorted j i ks m) [ inl e ↦ inl e | inr n ↦ inr (inr n) ]
  ]
]

All-insert_sorted :
    (P : ℕ → Type 0) (i : ℕ) (is : List ℕ) → P i → All P is → All P (insert_sorted i is)
unfolding insert_sorted
All-insert_sorted P i [] p h = (p, tt)
All-insert_sorted P i (k ∷ ks) p h = elim (Bool-cases (leb i k)) [
  | inl q ↦ rw q (p, h)
  | inr q ↦ rw q (h.0, All-insert_sorted P i ks p h.1)
]

pub insert_sorted-Ascending :
    (i : ℕ) (is : List ℕ) → ¬ In i is → Ascending is → Ascending (insert_sorted i is)
unfolding insert_sorted
insert_sorted-Ascending i [] n h = (tt, tt)
insert_sorted-Ascending i (k ∷ ks) n h = elim (Bool-cases (leb i k)) [
  | inl q ↦
      let apart : i ≢ k = λ e. n (inl e) in
      let below : i < k = ground arith in
      rw q ((below, All-mono (λ j. k < j) (λ j. i < j) ks (λ j l. omega arith) h.0), h)
  | inr q ↦ rw q (
    All-insert_sorted (λ j. k < j) i ks (ground arith) h.0,
    insert_sorted-Ascending i ks (λ m. n (inr m)) h.1,
  )
]

pub insert_sorted_first : (i : ℕ) (is : List ℕ) → All (λ j. i < j) is → insert_sorted i is ≡ i ∷ is
unfolding insert_sorted
insert_sorted_first i [] h = refl
insert_sorted_first i (k ∷ ks) h = ground (arith, h.0)

pub sort_fix : (is : List ℕ) → Ascending is → sort is ≡ is
unfolding sort
sort_fix [] h = refl
sort_fix (i ∷ is) h = rw (sort_fix is h.1) (insert_sorted_first i is h.0)

-- Releasing sorts the index into the free ones.
pub sort-cons : (i : ℕ) (is : List ℕ) → Ascending is → sort (i ∷ is) ≡ insert_sorted i is
unfolding sort
sort-cons i is h = rw (sort_fix is h)
