-- ===== src/Common/Map.antt =====
-- `std::unordered_map` as an association list. Clients use the laws; an iteration visits the
-- entries in the order of the list, which the code must not rely on.
use Prim.Native.Nat.{◌+◌}
use mathlib.Core.Path.{◌≡◌, refl, ap}
use mathlib.Core.Logic.{inl, inr}
use mathlib.Core.Bool.{true}
use mathlib.Core.List.{List, [], ◌∷◌}
use mathlib.Core.Option.{Option, none, some}
use native.Mathlib.Omega.{arith}
use vms_engine.Common.Tests.{Eq, ◌==◌, if◌then◌else◌, Bool-cases}
use vms_engine.Common.Lists.{length, In}

abbrev pub Map {ℓ κ} : Type ℓ → Type κ → Type (ℓ ⊔ κ)
Map K V = List (K × V)

pub eq_refl {ℓ} : {K : Type ℓ} ⦃e : Eq K⦄ (k : K) → (k == k) ≡ true
eq_refl ⦃e⦄ k = (e.same_iff k k).1 refl

module _ {ℓ κ} {K : Type ℓ} {V : Type κ} ⦃e : Eq K⦄ where
  -- m.find(k)
  unfoldable pub find : K → Map K V → Option V
  find k [] = none
  find k ((j, v) ∷ m) = if j == k then some v else find k m

  -- m.erase(k)
  unfoldable pub erase : K → Map K V → Map K V
  erase k [] = []
  erase k ((j, v) ∷ m) = if j == k then erase k m else (j, v) ∷ erase k m

  -- m[k] = v
  unfoldable pub insert : K → V → Map K V → Map K V
  insert k v [] = (k, v) ∷ []
  insert k v ((j, w) ∷ m) = if j == k then (k, v) ∷ m else (j, w) ∷ insert k v m

  pub find-erase :
      (k j : K) (m : Map K V) → find j (erase k m) ≡ (if k == j then none else find j m)
  unfolding find erase
  find-erase k j [] = ground arith
  find-erase k j ((i, w) ∷ m) =
      ground (arith, e.same_iff k j, e.same_iff i k, e.same_iff i j, find-erase k j m)

  pub find-insert :
      (k j : K) (v : V) (m : Map K V)
      → find j (insert k v m) ≡ (if k == j then some v else find j m)
  unfolding find insert
  find-insert k j v [] = refl
  find-insert k j v ((i, w) ∷ m) =
      ground (arith, e.same_iff k j, e.same_iff i k, e.same_iff i j, find-insert k j v m)

  pub find-insert_self : (k : K) (v : V) (m : Map K V) → find k (insert k v m) ≡ some v
  find-insert_self k v m = rw (find-insert, eq_refl)

  pub find-erase_self : (k : K) (m : Map K V) → find k (erase k m) ≡ none
  find-erase_self k m = rw (find-erase, eq_refl)

  pub find_head : (k : K) (v : V) (m : Map K V) → find k ((k, v) ∷ m) ≡ some v
  unfolding find
  find_head k v m = rw (eq_refl)

  pub length-insert_new :
      (k : K) (v : V) (m : Map K V) → find k m ≡ none → length (insert k v m) ≡ length m + 1
  unfolding find insert
  length-insert_new k v [] h = omega arith
  length-insert_new k v ((i, w) ∷ m) h = ground (arith, length-insert_new k v m)

  pub length-insert_old :
      (k : K) (u v : V) (m : Map K V) → find k m ≡ some u → length (insert k v m) ≡ length m
  unfolding find insert
  length-insert_old k u v [] h = absurd (cc)
  length-insert_old k u v ((i, w) ∷ m) h = ground (arith, length-insert_old k u v m)

  -- No key stands twice.
  abbrev pub IsDistinct : Map K V → Type κ
  IsDistinct [] = Unit
  IsDistinct ((k, v) ∷ m) = (find k m ≡ none) × IsDistinct m

  pub insert-IsDistinct : (k : K) (v : V) (m : Map K V) → IsDistinct m → IsDistinct (insert k v m)
  unfolding find insert
  insert-IsDistinct k v [] h = (refl, tt)
  insert-IsDistinct k v ((i, w) ∷ m) h =
      ground
        (arith, e.same_iff i k, e.same_iff k i, find-insert k i v m, insert-IsDistinct k v m h.1)

  pub erase-IsDistinct : (k : K) (m : Map K V) → IsDistinct m → IsDistinct (erase k m)
  unfolding find erase
  erase-IsDistinct k [] h = tt
  erase-IsDistinct k ((i, w) ∷ m) h = ground (arith, find-erase k i m, erase-IsDistinct k m h.1)

  pub erase_absent : (k : K) (m : Map K V) → find k m ≡ none → erase k m ≡ m
  unfolding find erase
  erase_absent k [] h = refl
  erase_absent k ((i, w) ∷ m) h = ground (arith, erase_absent k m)

  pub length-erase :
      (k : K) (m : Map K V) (v : V)
      → IsDistinct m
      → find k m ≡ some v
      → length (erase k m) + 1 ≡ length m
  unfolding find erase
  length-erase k [] v d h = cc
  length-erase k ((i, w) ∷ m) v d h =
      ground (arith, e.same_iff i k, erase_absent k m, length-erase k m v d.1)

module _ {K V : Type 0} ⦃e : Eq K⦄ where
  -- An entry that an iteration meets is the one that a lookup finds, and the other way round.
  pub find-In : (k : K) (v : V) (m : Map K V) → find k m ≡ some v → In (k, v) m
  unfolding find
  find-In k v [] h = cc
  find-In k v ((i, w) ∷ m) h = elim (Bool-cases (i == k)) [
    | inl q ↦ inl (ground (arith, e.same_iff i k))
    | inr q ↦ inr (find-In k v m (ground arith))
  ]

  pub In-find : (k : K) (v : V) (m : Map K V) → IsDistinct m → In (k, v) m → find k m ≡ some v
  unfolding find
  In-find k v [] d h = elim h [ ]
  In-find k v ((i, w) ∷ m) d (inl p) =
      let key : k ≡ i = ap (λ (x : K × V). x.0) p in
      let value : v ≡ w = ap (λ (x : K × V). x.1) p in ground (arith, e.same_iff i k)
  In-find k v ((i, w) ∷ m) d (inr h) = ground (arith, e.same_iff i k, In-find k v m d.1 h)

pub ruleset map_laws = (find-erase, find-insert, eq_refl)
