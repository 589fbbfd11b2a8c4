-- ===== src/Evidence/Recent/Tracked.antt =====
-- The ledger's map and its order hold the same references, and the limit is kept.
use vms_engine.Common.Map.{
  Map, find, erase, insert, find-erase, find-insert, find-insert_self, find_head, IsDistinct,
  insert-IsDistinct, erase-IsDistinct,
}
use vms_engine.Common.{
  ◌≡◌, ◌≢◌, refl, sym, ap, ◌∙◌, subst, inl, inr, true, false, ◌||◌, none, some, List, [], ◌∷◌, ◌++◌,
  Text, text_eq, text_beq_iff, ◌==◌, arith, In, In-append_left, In-append_right, In-append_split,
  Bool-cases, Option-cases, none-ne-some, ℤ,
}
use vms_engine.Evidence.Recent.{RecentConfig, Ledger, is_stale, is_crowded, prune_refs, put_ref}

-- No reference stands twice.
abbrev pub AllApart : List Text → Type 0
AllApart [] = Unit
AllApart (k ∷ ks) = (¬ In k ks) × AllApart ks

-- The order lists every reference of the map, once.
pub record IsTracked (refs : Map Text ℤ) (order : List Text) : Type 0 where
  pub distinct : IsDistinct refs
  pub listed : (k : Text) (t : ℤ) → find k refs ≡ some t → In k order
  pub present : (k : Text) → In k order → find k refs ≢ none
  pub apart : AllApart order

abbrev pub IsTrackedLedger : Ledger → Type 0
IsTrackedLedger l = IsTracked l.refs l.order

-- The oldest reference goes.
pub IsTracked-drop :
    (refs : Map Text ℤ) (k : Text) (ks : List Text)
    → IsTracked refs (k ∷ ks)
    → IsTracked (erase k refs) ks
IsTracked-drop refs k ks w = record {
  distinct = erase-IsDistinct k refs w.distinct;
  listed = λ j t p. elim (Bool-cases (k == j)) [
    | inl q ↦ absurd (ground (arith, find-erase k j refs))
    | inr q ↦ elim (w.listed j t (sym (find-erase k j refs ∙ rw q) ∙ p)) [
      | inl e ↦ absurd (ground (arith, text_beq_iff k j))
      | inr m ↦ m
    ]
  ];
  present = λ j m n. elim (Bool-cases (k == j)) [
    | inl q ↦ w.apart.0 (subst (λ x. In x ks) (sym ((text_beq_iff k j).0 q)) m)
    | inr q ↦ w.present j (inr m) (sym (find-erase k j refs ∙ rw q) ∙ n)
  ];
  apart = w.apart.1;
}

module _ (g : RecentConfig) (now : ℤ) where
  -- To prove something of the ledger after a pruning, follow the rounds of the loop.
  pub prune_refs_cases {ℓ} :
      (P : Map Text ℤ → List Text → Ledger → Type ℓ)
      → ((refs : Map Text ℤ) → IsTracked refs [] → P refs [] (record { refs = refs; order = [] }))
      → ((refs : Map Text ℤ) (k : Text) (ks : List Text) (t : ℤ) (r : Ledger)
          → IsTracked refs (k ∷ ks)
          → find k refs ≡ some t
          → (is_stale g now t || is_crowded g refs) ≡ true
          → P (erase k refs) ks r
          → P refs (k ∷ ks) r)
      → ((refs : Map Text ℤ) (k : Text) (ks : List Text) (t : ℤ)
          → IsTracked refs (k ∷ ks)
          → find k refs ≡ some t
          → (is_stale g now t || is_crowded g refs) ≡ false
          → P refs (k ∷ ks) (record { refs = refs; order = k ∷ ks }))
      → (refs : Map Text ℤ) (ks : List Text) → IsTracked refs ks
      → P refs ks (prune_refs g now refs ks)
  unfolding prune_refs
  prune_refs_cases P done drop stop refs [] w = done refs w
  prune_refs_cases P done drop stop refs (k ∷ ks) w = elim (Option-cases (find k refs)) [
    | inl h ↦ absurd (w.present k (inl refl) h)
    | inr (t, h) ↦ elim (Bool-cases (is_stale g now t || is_crowded g refs)) [
      | inl b ↦
          rw (h, b, prune_refs)
            (drop refs k ks t _ w h b
              (prune_refs_cases P done drop stop (erase k refs) ks (IsTracked-drop refs k ks w)))
      | inr b ↦ rw (h, b, prune_refs) (stop refs k ks t w h b)
    ]
  ]

  pub prune_refs-IsTracked :
      (refs : Map Text ℤ) (ks : List Text)
      → IsTracked refs ks
      → IsTrackedLedger (prune_refs g now refs ks)
  prune_refs-IsTracked =
      prune_refs_cases (λ refs ks r. IsTrackedLedger r) (λ refs w. w) (λ refs k ks t r w h b ih. ih)
        (λ refs k ks t w h b. w)

-- A map whose order is empty is empty.
pub empty_of_IsTracked : (refs : Map Text ℤ) → IsTracked refs [] → refs ≡ []
empty_of_IsTracked [] w = refl
empty_of_IsTracked ((k, t) ∷ refs) w = absurd (w.listed k t (find_head k t refs))

-- The map is within the limit, where there is one.
pub record IsWithin (g : RecentConfig) (l : Ledger) : Type 0 where
  pub uncrowded : is_crowded g l.refs ≡ false

none_crowds : (g : RecentConfig) → is_crowded g [] ≡ false
unfolding is_crowded
none_crowds g = ground arith

pub prune_refs-IsWithin :
    (g : RecentConfig) (now : ℤ) (refs : Map Text ℤ) (ks : List Text)
    → IsTracked refs ks
    → IsWithin g (prune_refs g now refs ks)
prune_refs-IsWithin g now =
    prune_refs_cases g now (λ refs ks r. IsWithin g r)
      (λ refs w. record {
        uncrowded = ap (is_crowded g) (empty_of_IsTracked refs w) ∙ none_crowds g;
      })
      (λ refs k ks t r w h b ih. ih) (λ refs k ks t w h b. record { uncrowded = ground arith })

AllApart-append : (ks : List Text) (k : Text) → AllApart ks → ¬ In k ks → AllApart (ks ++ k ∷ [])
AllApart-append [] k a n = (λ m. elim m [ ], tt)
AllApart-append (j ∷ ks) k a n = (
  λ m. elim (In-append_split j ks (k ∷ []) m) [
    | inl m' ↦ a.0 m'
    | inr m' ↦ elim m' [ inl e ↦ n (inl (sym e)) | inr x ↦ x ]
  ],
  AllApart-append ks k a.1 (λ m. n (inr m)),
)

module _ (l : Ledger) (k : Text) (now : ℤ) (w : IsTrackedLedger l) where
  still : (j : Text) → In j l.order → find j (insert k now l.refs) ≢ none
  still j m e = elim (Bool-cases (k == j)) [
    | inl q ↦ none-ne-some now (sym e ∙ find-insert k j now l.refs ∙ rw q)
    | inr q ↦ w.present j m (sym (find-insert k j now l.refs ∙ rw q) ∙ e)
  ]

  other :
      (j : Text) (t : ℤ) → (k == j) ≡ false → find j (insert k now l.refs) ≡ some t → In j l.order
  other j t q p = w.listed j t (sym (find-insert k j now l.refs ∙ rw q) ∙ p)

  IsTracked-known : (t : ℤ) → find k l.refs ≡ some t → IsTracked (insert k now l.refs) l.order
  IsTracked-known t e = record {
    distinct = insert-IsDistinct k now l.refs w.distinct;
    listed = λ j u p. elim (Bool-cases (k == j)) [
      | inl q ↦ subst (λ x. In x l.order) ((text_beq_iff k j).0 q) (w.listed k t e)
      | inr q ↦ other j u q p
    ];
    present = still;
    apart = w.apart;
  }

  IsTracked-new : find k l.refs ≡ none → IsTracked (insert k now l.refs) (l.order ++ k ∷ [])
  IsTracked-new e = record {
    distinct = insert-IsDistinct k now l.refs w.distinct;
    listed = λ j u p. elim (Bool-cases (k == j)) [
      | inl q ↦ In-append_right j l.order (k ∷ []) (inl (sym ((text_beq_iff k j).0 q)))
      | inr q ↦ In-append_left j l.order (k ∷ []) (other j u q p)
    ];
    present = λ j m. elim (In-append_split j l.order (k ∷ []) m) [
      | inl n ↦ still j n
      | inr n ↦ elim n [
        | inl q ↦ λ f.
            none-ne-some now
              (sym f ∙ ap (λ x. find x (insert k now l.refs)) q ∙ find-insert_self k now l.refs)
        | inr x ↦ absurd x
      ]
    ];
    apart = AllApart-append l.order k w.apart (λ m. w.present k m e);
  }

  -- A reference that is new goes to the end, and one that is there gets the new time.
  pub put_ref-IsTracked : IsTrackedLedger (put_ref l k now)
  unfolding put_ref
  put_ref-IsTracked = elim (Option-cases (find k l.refs)) [
    | inl e ↦ rw (e, put_ref) (IsTracked-new e)
    | inr (t, e) ↦ rw (e, put_ref) (IsTracked-known t e)
  ]
