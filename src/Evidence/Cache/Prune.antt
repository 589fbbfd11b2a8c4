-- ===== src/Evidence/Cache/Prune.antt =====
-- What the pruning loop of the frame cache leaves behind.
use vms_engine.Common.Map.{Map, find, erase, find-erase}
use vms_engine.Common.{
  ◌≤◌, ◌≡◌, true, false, inl, inr, ◌||◌, none, some, List, [], ◌∷◌, Text, text_eq, text_beq_iff, In,
  length, Bool-cases, Option-cases, arith, ℤ, ◌≤ℤ◌, ◌-ℤ◌,
}
use vms_engine.Evidence.Cache.{EvidenceConfig, Entry, is_expired, is_over_limit, prune_loop}

module _ (g : EvidenceConfig) (now : ℤ) where
  -- The three ways that a round goes.
  pub prune_loop-none :
      (entries : Map Text Entry) (k : Text) (ks : List Text)
      → find k entries ≡ none
      → prune_loop g now entries (k ∷ ks) ≡ prune_loop g now entries ks
  unfolding prune_loop
  prune_loop-none entries k ks h = rw (h, prune_loop)

  pub prune_loop-drop :
      (entries : Map Text Entry) (k : Text) (ks : List Text) (e : Entry)
      → find k entries ≡ some e
      → (is_expired g now e || is_over_limit g (k ∷ ks)) ≡ true
      → prune_loop g now entries (k ∷ ks) ≡ prune_loop g now (erase k entries) ks
  unfolding prune_loop
  prune_loop-drop entries k ks e h t = rw (h, t, prune_loop)

  pub prune_loop-stop :
      (entries : Map Text Entry) (k : Text) (ks : List Text) (e : Entry)
      → find k entries ≡ some e
      → (is_expired g now e || is_over_limit g (k ∷ ks)) ≡ false
      → prune_loop g now entries (k ∷ ks) ≡ (entries, k ∷ ks)
  unfolding prune_loop
  prune_loop-stop entries k ks e h t = rw (h, t, prune_loop)

  -- To prove something of the loop's result, follow its rounds.
  pub prune_cases {ℓ} :
      (P : Map Text Entry → List Text → Map Text Entry × List Text → Type ℓ)
      → ((entries : Map Text Entry) → P entries [] (entries, []))
      → ((entries : Map Text Entry) (k : Text) (ks : List Text) (r : Map Text Entry × List Text)
          → find k entries ≡ none
          → P entries ks r
          → P entries (k ∷ ks) r)
      → ((entries : Map Text Entry) (k : Text) (ks : List Text) (r : Map Text Entry × List Text)
          → P (erase k entries) ks r
          → P entries (k ∷ ks) r)
      → ((entries : Map Text Entry) (k : Text) (ks : List Text) (e : Entry)
          → find k entries ≡ some e
          → (is_expired g now e || is_over_limit g (k ∷ ks)) ≡ false
          → P entries (k ∷ ks) (entries, k ∷ ks))
      → (entries : Map Text Entry) (ks : List Text) → P entries ks (prune_loop g now entries ks)
  unfolding prune_loop
  prune_cases P done missing drop stop entries [] = done entries
  prune_cases P done missing drop stop entries (k ∷ ks) = elim (Option-cases (find k entries)) [
    | inl h ↦
        rw (prune_loop-none entries k ks h)
          (missing entries k ks _ h (prune_cases P done missing drop stop entries ks))
    | inr (e, h) ↦ elim (Bool-cases (is_expired g now e || is_over_limit g (k ∷ ks))) [
      | inl t ↦
          rw (prune_loop-drop entries k ks e h t)
            (drop entries k ks _ (prune_cases P done missing drop stop (erase k entries) ks))
      | inr f ↦ rw (prune_loop-stop entries k ks e h f) (stop entries k ks e h f)
    ]
  ]

  -- An entry that stays was there before, unchanged, and its key stays in the deque.
  pub prune_loop-keeps :
      (j : Text) (e : Entry) (entries : Map Text Entry) (ks : List Text)
      → find j (prune_loop g now entries ks).0 ≡ some e
      → (find j entries ≡ some e) × (In j ks → In j (prune_loop g now entries ks).1)
  prune_loop-keeps j e =
      prune_cases
        (λ entries ks r. find j r.0 ≡ some e → (find j entries ≡ some e) × (In j ks → In j r.1))
        (λ entries h. (h, λ m. m))
        (λ entries k ks r h ih p.
          ((ih p).0, λ m. elim m [ inl q ↦ absurd (ground (arith, ih p)) | inr n ↦ (ih p).1 n ]))
        (λ entries k ks r ih p.
          let kept = ih p in
          (
            ground (arith, find-erase k j entries),
            λ m. elim m [
              | inl q ↦ absurd (ground (arith, find-erase k j entries, text_beq_iff k j))
              | inr n ↦ kept.1 n
            ],
          ))
        (λ entries k ks x h f p. (p, λ m. m))

  -- After the loop the deque is within the limit, and no longer than it was.
  pub prune_loop-IsBounded :
      (entries : Map Text Entry) (ks : List Text)
      → (is_over_limit g (prune_loop g now entries ks).1 ≡ false)
        × (length (prune_loop g now entries ks).1 ≤ length ks)
  unfolding is_over_limit
  prune_loop-IsBounded =
      prune_cases (λ entries ks r. (is_over_limit g r.1 ≡ false) × (length r.1 ≤ length ks))
        (λ entries. ground arith) (λ entries k ks r h ih. (ih.0, omega arith))
        (λ entries k ks r ih. (ih.0, omega arith))
        (λ entries k ks x h f. (ground arith, omega arith))

-- No entry of `ks` is older than that of `k`.
abbrev pub Precedes : Map Text Entry → Text → List Text → Type 0
Precedes entries k ks =
    (j : Text) (d e : Entry)
    → In j ks
    → find k entries ≡ some d
    → find j entries ≡ some e
    → d.cached_at_ms ≤ℤ e.cached_at_ms

-- The entries of a deque stand in the order of their times.
abbrev pub Ordered : Map Text Entry → List Text → Type 0
Ordered entries [] = Unit
Ordered entries (k ∷ ks) = Precedes entries k ks × Ordered entries ks

-- Fewer entries stay ordered.
pub Ordered-sub :
    (big small : Map Text Entry) (ks : List Text)
    → ((j : Text) (e : Entry) → find j small ≡ some e → find j big ≡ some e)
    → Ordered big ks
    → Ordered small ks
Ordered-sub big small [] sub o = tt
Ordered-sub big small (k ∷ ks) sub o =
    (λ j d e m p q. o.0 j d e m (sub k d p) (sub j e q), Ordered-sub big small ks sub o.1)

pub erase-sub :
    (k j : Text) (e : Entry) (entries : Map Text Entry)
    → find j (erase k entries) ≡ some e
    → find j entries ≡ some e
erase-sub k j e entries h = ground (arith, find-erase k j entries)

module _ (g : EvidenceConfig) (now : ℤ) where
  -- What is younger than an unexpired entry has not expired.
  is_expired_mono :
      (d e : Entry)
      → d.cached_at_ms ≤ℤ e.cached_at_ms
      → is_expired g now d ≡ false
      → is_expired g now e ≡ false
  unfolding is_expired ◌-ℤ◌
  is_expired_mono d e h f = ground arith

  -- If the deque is in the order of time, no frame that stays has expired.
  pub prune_loop-fresh :
      (j : Text) (e : Entry) (entries : Map Text Entry) (ks : List Text)
      → Ordered entries ks
      → In j (prune_loop g now entries ks).1
      → find j (prune_loop g now entries ks).0 ≡ some e
      → is_expired g now e ≡ false
  prune_loop-fresh j e =
      prune_cases g now
        (λ entries ks r.
          Ordered entries ks → In j r.1 → find j r.0 ≡ some e → is_expired g now e ≡ false)
        (λ entries o m p. elim m [ ]) (λ entries k ks r h ih o. ih o.1)
        (λ entries k ks r ih o.
          ih (Ordered-sub entries (erase k entries) ks (λ i d. erase-sub k i d entries) o.1))
        (λ entries k ks x h f o m p. elim m [
          | inl q ↦ ground arith
          | inr n ↦ is_expired_mono x e (o.0 j x e n h p) (ground arith)
        ])

  pub prune_loop-Ordered :
      (entries : Map Text Entry) (ks : List Text)
      → Ordered entries ks
      → Ordered (prune_loop g now entries ks).0 (prune_loop g now entries ks).1
  prune_loop-Ordered =
      prune_cases g now (λ entries ks r. Ordered entries ks → Ordered r.0 r.1) (λ entries o. tt)
        (λ entries k ks r h ih o. ih o.1)
        (λ entries k ks r ih o.
          ih (Ordered-sub entries (erase k entries) ks (λ i d. erase-sub k i d entries) o.1))
        (λ entries k ks x h f o. o)
