-- ===== src/Common/Lists.antt =====
-- Lists measured by native numbers, and predicates on lists by recursion.
use Prim.Native.Nat.{ℕ, suc, ◌+◌}
use mathlib.Core.Path.{◌≡◌, refl}
use mathlib.Core.Bool.{Bool, true, false, ◌||◌}
use mathlib.Core.Logic.{◌⊎◌, inl, inr}
use mathlib.Core.List.{List, [], ◌∷◌, ◌++◌}
use native.Mathlib.Omega.{arith}
use vms_engine.Common.Tests.{Eq, ◌==◌}

module _ {ℓ} {A : Type ℓ} where
  abbrev pub length : List A → ℕ
  length [] = 0
  length (x ∷ xs) = suc (length xs)

  pub length-append : (xs ys : List A) → length (xs ++ ys) ≡ length xs + length ys
  length-append [] ys = omega arith
  length-append (x ∷ xs) ys = omega (arith, length-append xs ys)

  abbrev pub is_empty : List A → Bool
  is_empty [] = true
  is_empty (x ∷ xs) = false

-- `In x xs`: `x` stands somewhere in `xs`.
abbrev pub In : {A : Type 0} → A → List A → Type 0
In x [] = ⊥
In x (y ∷ ys) = (x ≡ y) ⊎ In x ys

pub In-append_left : {A : Type 0} (x : A) (xs ys : List A) → In x xs → In x (xs ++ ys)
In-append_left x (y ∷ xs) ys (inl e) = inl e
In-append_left x (y ∷ xs) ys (inr h) = inr (In-append_left x xs ys h)
In-append_left x [] ys h = elim h [ ]

pub In-append_right : {A : Type 0} (x : A) (xs ys : List A) → In x ys → In x (xs ++ ys)
In-append_right x [] ys h = h
In-append_right x (y ∷ xs) ys h = inr (In-append_right x xs ys h)

pub In-append_split : {A : Type 0} (x : A) (xs ys : List A) → In x (xs ++ ys) → In x xs ⊎ In x ys
In-append_split x [] ys h = inr h
In-append_split x (y ∷ xs) ys (inl e) = inl (inl e)
In-append_split x (y ∷ xs) ys (inr h) = elim (In-append_split x xs ys h) [
  | inl m ↦ inl (inr m)
  | inr m ↦ inr m
]

abbrev pub All {ℓ κ} : {A : Type ℓ} → (A → Type κ) → List A → Type κ
All P [] = Unit
All P (x ∷ xs) = P x × All P xs

pub All-at {κ} : {A : Type 0} (P : A → Type κ) (x : A) (xs : List A) → All P xs → In x xs → P x
All-at P x [] h m = elim m [ ]
All-at P x (y ∷ ys) h (inl e) = rw e h.0
All-at P x (y ∷ ys) h (inr m) = All-at P x ys h.1 m

pub All-of_In {κ} :
    {A : Type 0} (P : A → Type κ) (xs : List A) → ((x : A) → In x xs → P x) → All P xs
All-of_In P [] f = tt
All-of_In P (x ∷ xs) f = (f x (inl refl), All-of_In P xs (λ y m. f y (inr m)))

pub All-mono {κ} :
    {A : Type 0} (P Q : A → Type κ) (xs : List A) → ((x : A) → P x → Q x) → All P xs → All Q xs
All-mono P Q [] f h = tt
All-mono P Q (x ∷ xs) f h = (f x h.0, All-mono P Q xs f h.1)

-- A search such as `std::find`, as a Boolean.
module _ {ℓ} {A : Type ℓ} ⦃e : Eq A⦄ where
  unfoldable pub contains : A → List A → Bool
  contains a [] = false
  contains a (x ∷ xs) = x == a || contains a xs
