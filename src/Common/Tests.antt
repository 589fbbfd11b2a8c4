-- ===== src/Common/Tests.antt =====
-- Boolean tests on the native numbers, the conditional, and the equality interface.
use Prim.Native.Nat.{ℕ, ◌≤◌, ◌<◌, compare, Ordering}
use mathlib.Core.Path.{◌≡◌, refl, sym, ◌∙◌}
use mathlib.Core.Logic.{◌↔◌, ◌⊎◌, inl, inr}
use mathlib.Core.Bool.{Bool, true, false, ◌&&◌, ◌||◌, false≢true}
use mathlib.Core.Option.{Option, none, some}
use native.Mathlib.Omega.{arith}

abbrev pub ltb : ℕ → ℕ → Bool
ltb a b = elim (compare a b) [ Ordering.lt ↦ true | _ ↦ false ]

abbrev pub leb : ℕ → ℕ → Bool
leb a b = elim (compare a b) [ Ordering.gt ↦ false | _ ↦ true ]

abbrev pub nat_beq : ℕ → ℕ → Bool
nat_beq a b = elim (compare a b) [ Ordering.eq ↦ true | _ ↦ false ]

infix 1 if◌then◌else◌
abbrev pub if◌then◌else◌ {ℓ} : {A : Type ℓ} → Bool → A → A → A
if true then x else y = x
if false then x else y = y

pub ltb→lt : (a b : ℕ) → ltb a b ≡ true → a < b
ltb→lt a b h = ground arith

pub ltb→le : (a b : ℕ) → ltb a b ≡ false → b ≤ a
ltb→le a b h = ground arith

pub lt→ltb : (a b : ℕ) → a < b → ltb a b ≡ true
lt→ltb a b h = ground arith

pub nat_beq_iff : (a b : ℕ) → (nat_beq a b ≡ true) ↔ (a ≡ b)
nat_beq_iff a b = ground arith

-- To split on a computed value and keep the equation.
pub Bool-cases : (b : Bool) → (b ≡ true) ⊎ (b ≡ false)
Bool-cases true = inl refl
Bool-cases false = inr refl

pub Option-cases {ℓ} : {A : Type ℓ} (o : Option A) → (o ≡ none) ⊎ ((a : A) × (o ≡ some a))
Option-cases none = inl refl
Option-cases (some a) = inr (a, refl)

pub none-ne-some {ℓ} : {A : Type ℓ} (a : A) → none ≡ some a → ⊥
none-ne-some a e = cc

-- C++ `==` on a type of keys or values.
pub record Eq {ℓ} (A : Type ℓ) : Type ℓ where
  pub same : A → A → Bool
  pub same_iff : (a b : A) → (same a b ≡ true) ↔ (a ≡ b)

-- What holds of both branches holds of the conditional.
pub if_keep {ℓ κ} :
    {A : Type ℓ} (P : A → Type κ) (b : Bool) (x y : A) → P x → P y → P (if b then x else y)
if_keep P true x y p q = p
if_keep P false x y p q = q

-- The test `b` says whether `P` holds.
abbrev pub Decides {ℓ} : Bool → Type ℓ → Type ℓ
Decides b P = (b ≡ true → P) × (b ≡ false → ¬ P)

pub Decides-or {ℓ} :
    {P Q : Type ℓ} (a b : Bool) → Decides a P → Decides b Q → Decides (a || b) (P ⊎ Q)
Decides-or true b p q = (λ h. inl (p.0 refl), λ h. absurd (cc))
Decides-or false b p q = (λ h. inr (q.0 h), λ h s. elim s [ inl x ↦ p.1 refl x | inr y ↦ q.1 h y ])

pub Decides-and {ℓ} :
    {P Q : Type ℓ} (a b : Bool) → Decides a P → Decides b Q → Decides (a && b) (P × Q)
Decides-and true b p q = (λ h. (p.0 refl, q.0 h), λ h s. q.1 h s.1)
Decides-and false b p q = (λ h. absurd (cc), λ h s. p.1 refl s.0)

pub Decides-iff {ℓ} : {P : Type ℓ} (b : Bool) → ((b ≡ true) ↔ P) → Decides b P
Decides-iff b e = (e.0, λ h p. false≢true (sym h ∙ e.1 p))

-- The same where each branch may use its test.
pub if_split {ℓ κ} :
    {A : Type ℓ} (P : A → Type κ) (b : Bool) (x y : A)
    → (b ≡ true → P x)
    → (b ≡ false → P y)
    → P (if b then x else y)
if_split P true x y p q = p refl
if_split P false x y p q = q refl

instance abbrev pub nat_eq : Eq ℕ
nat_eq = record { same = nat_beq; same_iff = nat_beq_iff }

-- Equality by the instance of the type.
infix 50 ◌==◌
abbrev pub ◌==◌ {ℓ} : {A : Type ℓ} ⦃eq : Eq A⦄ → A → A → Bool
◌==◌ ⦃eq⦄ = eq.same
