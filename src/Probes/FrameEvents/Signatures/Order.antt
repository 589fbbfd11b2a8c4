-- ===== src/Probes/FrameEvents/Signatures/Order.antt =====
-- A signature does not depend on the order of what it is made of.
use mathlib.Core.List.{Permᴰ}
use vms_engine.Common.{
  ◌≡◌, refl, ap, ap₂, ◌∙◌, true, ◌||◌, List, [], ◌∷◌, Text, nat_eq, nat_beq_iff, map, arith,
}
use vms_engine.Probes.FrameEvents.{FrameEventObject}
use vms_engine.Probes.FrameEvents.Signatures.{
  text_leb, insert_text, sort_texts, join, label_part, build_label_signature, object_part,
  build_signature,
}

text_leb_total : (s t : Text) → (text_leb s t || text_leb t s) ≡ true
unfolding text_leb
text_leb_total [] t = refl
text_leb_total (a ∷ s) [] = refl
text_leb_total (a ∷ s) (b ∷ t) =
    ground (arith, text_leb_total s t, nat_beq_iff a b, nat_beq_iff b a)

text_leb_antisym : (s t : Text) → text_leb s t ≡ true → text_leb t s ≡ true → s ≡ t
unfolding text_leb
text_leb_antisym [] [] h k = refl
text_leb_antisym [] (b ∷ t) h k = absurd (cc)
text_leb_antisym (a ∷ s) [] h k = absurd (cc)
text_leb_antisym (a ∷ s) (b ∷ t) h k =
    ground (arith, text_leb_antisym s t, nat_beq_iff a b, nat_beq_iff b a)

text_leb_trans : (r s t : Text) → text_leb r s ≡ true → text_leb s t ≡ true → text_leb r t ≡ true
unfolding text_leb
text_leb_trans [] s t h k = refl
text_leb_trans (a ∷ r) [] t h k = absurd (cc)
text_leb_trans (a ∷ r) (b ∷ s) [] h k = absurd (cc)
text_leb_trans (a ∷ r) (b ∷ s) (c ∷ t) h k =
    ground (arith, text_leb_trans r s t, nat_beq_iff a b, nat_beq_iff b c, nat_beq_iff a c)

insert_text_swap :
    (a b : Text) (l : List Text) → insert_text a (insert_text b l) ≡ insert_text b (insert_text a l)
unfolding insert_text
insert_text_swap a b [] = ground (arith, text_leb_total a b, text_leb_antisym a b)
insert_text_swap a b (c ∷ l) = ground (
  arith,
  insert_text_swap a b l,
  text_leb_total a b,
  text_leb_antisym a b,
  text_leb_trans a b c,
  text_leb_trans b a c,
)

sort_texts-Perm : {ks ls : List Text} → Permᴰ ks ls → sort_texts ks ≡ sort_texts ls
unfolding sort_texts
sort_texts-Perm Permᴰ.nil = refl
sort_texts-Perm (Permᴰ.cons e p) = ap₂ insert_text e (sort_texts-Perm p)
sort_texts-Perm (Permᴰ.swap {a} {b} {l = l} e f) =
    rw (← e, ← f) (insert_text_swap a b (sort_texts l))
sort_texts-Perm (Permᴰ.trans p q) = sort_texts-Perm p ∙ sort_texts-Perm q

map-Perm {ℓ κ} :
    {A : Type ℓ} {B : Type κ} (f : A → B) {ks ls : List A}
    → Permᴰ ks ls
    → Permᴰ (map f ks) (map f ls)
map-Perm f Permᴰ.nil = Permᴰ.nil
map-Perm f (Permᴰ.cons e p) = Permᴰ.cons (ap f e) (map-Perm f p)
map-Perm f (Permᴰ.swap e h) = Permᴰ.swap (ap f e) (ap f h)
map-Perm f (Permᴰ.trans p q) = Permᴰ.trans (map-Perm f p) (map-Perm f q)

-- Frames that have the same objects in different orders have the same signature, and so have
-- objects that have the same labels.
pub signatures-Perm :
    (os ps : List FrameEventObject) (ks ls : List Text)
    → Permᴰ os ps
    → Permᴰ ks ls
    → (build_signature os ≡ build_signature ps)
      × (build_label_signature ks ≡ build_label_signature ls)
unfolding build_signature build_label_signature
signatures-Perm os ps ks ls p q = (
  ap (join b';') (sort_texts-Perm (map-Perm object_part p)),
  ap (join b'|') (sort_texts-Perm (map-Perm label_part q)),
)
