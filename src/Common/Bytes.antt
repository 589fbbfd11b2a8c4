-- ===== src/Common/Bytes.antt =====
-- `std::string` as the list of its bytes, compared byte by byte.
use Prim.Native.Nat.{ℕ}
use Prim.Native.Char.{code}
use Prim.Native.String.{String}
use mathlib.Core.Path.{◌≡◌, refl}
use mathlib.Core.Logic.{◌↔◌}
use mathlib.Core.Bool.{Bool, true, false, ◌&&◌}
use mathlib.Core.List.{List, [], ◌∷◌}
use native.Mathlib.Omega.{arith}
use vms_engine.Common.Tests.{nat_beq, nat_beq_iff, Eq}

abbrev pub Text : Type 0
Text = List ℕ

-- The bytes of an ASCII literal.
abbrev pub codes : String → Text
codes String.[] = []
codes (String.◌∷◌ c s) = code c ∷ codes s

unfoldable pub text_beq : Text → Text → Bool
text_beq [] [] = true
text_beq [] (b ∷ t) = false
text_beq (a ∷ s) [] = false
text_beq (a ∷ s) (b ∷ t) = nat_beq a b && text_beq s t

text_beq_sound : (s t : Text) → text_beq s t ≡ true → s ≡ t
unfolding text_beq
text_beq_sound [] [] h = refl
text_beq_sound [] (b ∷ t) h = cc
text_beq_sound (a ∷ s) [] h = cc
text_beq_sound (a ∷ s) (b ∷ t) h = ground (arith, text_beq_sound s t, nat_beq_iff a b)

text_beq_refl : (s : Text) → text_beq s s ≡ true
unfolding text_beq
text_beq_refl [] = refl
text_beq_refl (a ∷ s) = ground (arith, text_beq_refl s)

text_beq_complete : (s t : Text) → s ≡ t → text_beq s t ≡ true
text_beq_complete s t e = rw e (text_beq_refl t)

pub text_beq_iff : (s t : Text) → (text_beq s t ≡ true) ↔ (s ≡ t)
text_beq_iff s t = (text_beq_sound s t, text_beq_complete s t)

instance abbrev pub text_eq : Eq Text
text_eq = record { same = text_beq; same_iff = text_beq_iff }
