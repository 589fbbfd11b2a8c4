-- ===== src/Evidence/Cache/Nearest.antt =====
-- The loop over the candidates of a source: the frame nearest in time.
use vms_engine.Common.Map.{Map, find}
use vms_engine.Common.{
  ◌≡◌, refl, sym, subst, true, ◌⊎◌, inl, inr, ◌∙◌, ◌&&◌, Option, none, some, List, [], ◌∷◌, Text,
  text_eq, In, Bool-cases, Option-cases, arith, ℤ, pos, ltb_ℤ, leb_ℤ, ◌≤ℤ◌, ◌+ℤ◌, ◌-ℤ◌, abs,
  int_laws,
}
use vms_engine.Evidence.Cache.{
  EvidenceConfig, Entry, Cache, Request, matches, delta, consider, consider_found, nearest,
  fallback,
}

-- How far the time of a frame is from the time of a request.
abbrev pub distance : Request → Entry → ℤ
distance r e = abs (e.meta.frame_ts_ms -ℤ r.frame_ts_ms)

-- A frame that the fallback may answer with, by a measure `d` of its distance.
pub record IsCandidate (d : Request → Entry → ℤ) (g : EvidenceConfig) (r : Request) (e : Entry)
    : Type 0 where
  pub routed : matches r e ≡ true
  pub close : d r e ≤ℤ g.max_frame_gap_ms

module _ (g : EvidenceConfig) (r : Request) where
  consider-le : (acc : ℤ × Option Entry) (e : Entry) → (consider g r acc e).0 ≤ℤ acc.0
  unfolding consider
  consider-le (d, best) e = ground arith

  consider-covers :
      (acc : ℤ × Option Entry) (e : Entry)
      → IsCandidate delta g r e
      → (consider g r acc e).0 ≤ℤ delta r e
  unfolding consider
  consider-covers (d, best) e h = ground (arith, h.routed, h.close)

  -- Either nothing changes, or the frame is a candidate and is taken.
  abbrev Taken : ℤ × Option Entry → ℤ × Option Entry → Entry → Type 0
  Taken before after e = (IsCandidate delta g r e) × (after ≡ (delta r e, some e))

  consider-attained :
      (acc : ℤ × Option Entry) (e : Entry)
      → (consider g r acc e ≡ acc) ⊎ Taken acc (consider g r acc e) e
  unfolding consider
  consider-attained (d, best) e = elim (Bool-cases (matches r e)) [
    | inr q ↦ inl (ground arith)
    | inl q ↦ elim (Bool-cases (leb_ℤ (delta r e) g.max_frame_gap_ms && ltb_ℤ (delta r e) d)) [
      | inr p ↦ inl (ground arith)
      | inl p ↦ inr (record { routed = q; close = ground arith }, ground arith)
    ]
  ]

  consider_found-attained :
      (acc : ℤ × Option Entry) (o : Option Entry)
      → (consider_found g r acc o ≡ acc)
        ⊎ ((e : Entry) × (o ≡ some e)
            × IsCandidate delta g r e
            × (consider_found g r acc o ≡ (delta r e, some e)))
  unfolding consider_found
  consider_found-attained acc none = inl refl
  consider_found-attained acc (some e) = elim (consider-attained acc e) [
    | inl q ↦ inl q
    | inr t ↦ inr (e, refl, t.0, t.1)
  ]

  module _ (entries : Map Text Entry) where
    nearest-le : (acc : ℤ × Option Entry) (ks : List Text) → (nearest g r entries acc ks).0 ≤ℤ acc.0
    unfolding nearest consider_found
    nearest-le acc [] = omega arith
    nearest-le acc (k ∷ ks) = elim (Option-cases (find k entries)) [
      | inl h ↦ rw (h, nearest) (nearest-le acc ks)
      | inr (e, h) ↦
          rw (h, nearest) (omega (arith, nearest-le (consider g r acc e) ks, consider-le acc e))
    ]

    nearest-covers :
        (acc : ℤ × Option Entry) (ks : List Text) (k : Text) (e : Entry)
        → In k ks
        → find k entries ≡ some e
        → IsCandidate delta g r e
        → (nearest g r entries acc ks).0 ≤ℤ delta r e
    unfolding nearest consider_found
    nearest-covers acc (j ∷ ks) k e (inl q) h c =
        rw (← q, h, nearest)
          (omega (arith, nearest-le (consider g r acc e) ks, consider-covers acc e c))
    nearest-covers acc (j ∷ ks) k e (inr m) h c =
        nearest-covers (consider_found g r acc (find j entries)) ks k e m h c
    nearest-covers acc [] k e m h c = elim m [ ]

    -- The frame that the loop ends with, if it changed anything, and its distance.
    abbrev FromPool : List Text → ℤ × Option Entry → Type 0
    FromPool ks after =
        (k : Text) × (e : Entry) × In k ks
        × (find k entries ≡ some e)
        × IsCandidate delta g r e
        × (after ≡ (delta r e, some e))

    nearest-attained :
        (acc : ℤ × Option Entry) (ks : List Text)
        → (nearest g r entries acc ks ≡ acc) ⊎ FromPool ks (nearest g r entries acc ks)
    unfolding nearest consider_found
    nearest-attained acc [] = inl refl
    nearest-attained acc (k ∷ ks) =
        let next = consider_found g r acc (find k entries) in
        elim (nearest-attained next ks) [
          | inr (j, e, m, h, c, q) ↦ inr (j, e, inr m, h, c, q)
          | inl q ↦ elim (consider_found-attained acc (find k entries)) [
            | inl p ↦ inl (q ∙ p)
            | inr (e, h, c, p) ↦ inr (k, e, inl refl, h, c, q ∙ p)
          ]
        ]

-- Of the frames in `ks`, the answer is the candidate nearest in time; there is none only if no
-- frame is a candidate.
abbrev pub IsNearest :
    (Request → Entry → ℤ)
    → EvidenceConfig
    → Request
    → Map Text Entry
    → List Text
    → Option Entry
    → Type 0
IsNearest d g r entries ks none =
    (k : Text) (e : Entry) → In k ks → find k entries ≡ some e → ¬ IsCandidate d g r e
IsNearest d g r entries ks (some best) =
    ((k : Text) × In k ks × (find k entries ≡ some best))
    × IsCandidate d g r best
    × ((k : Text) (e : Entry)
        → In k ks
        → find k entries ≡ some e
        → IsCandidate d g r e
        → d r best ≤ℤ d r e)

-- Of two measures that agree on the frames.
IsCandidate-agree :
    (a b : Request → Entry → ℤ) (g : EvidenceConfig) (r : Request) (e : Entry)
    → a r e ≡ b r e
    → IsCandidate a g r e
    → IsCandidate b g r e
IsCandidate-agree a b g r e same h = record {
  routed = h.routed;
  close = subst (λ x. x ≤ℤ g.max_frame_gap_ms) same h.close;
}

pub IsNearest-agree :
    (a b : Request → Entry → ℤ) (g : EvidenceConfig) (r : Request) (entries : Map Text Entry)
    (ks : List Text) (o : Option Entry)
    → ((k : Text) (e : Entry) → find k entries ≡ some e → a r e ≡ b r e)
    → IsNearest a g r entries ks o
    → IsNearest b g r entries ks o
IsNearest-agree a b g r entries ks none same h =
    λ k e m f c. h k e m f (IsCandidate-agree b a g r e (sym (same k e f)) c)
IsNearest-agree a b g r entries ks (some best) same ((k, m, f), c, least) = (
  (k, m, f),
  IsCandidate-agree a b g r best (same k best f) c,
  λ j e n p q.
      subst (λ x. x ≤ℤ b r e) (same k best f)
        (subst (λ x. a r best ≤ℤ x) (same j e p)
          (least j e n p (IsCandidate-agree b a g r e (sym (same j e p)) q))),
)

start : EvidenceConfig → ℤ × Option Entry
start g = (g.max_frame_gap_ms +ℤ pos 1, none)

settle :
    (g : EvidenceConfig) (r : Request) (entries : Map Text Entry) (ks : List Text)
    (x : ℤ × Option Entry)
    → ((k : Text) (e : Entry)
        → In k ks
        → find k entries ≡ some e
        → IsCandidate delta g r e
        → x.0 ≤ℤ delta r e)
    → (x ≡ start g) ⊎ FromPool g r entries ks x
    → IsNearest delta g r entries ks x.1
unfolding start
settle g r entries ks x covers (inl q) =
    subst (λ y. IsNearest delta g r entries ks y.1) (sym q)
      (λ k e m h a.
        let far = subst (λ y. y.0 ≤ℤ delta r e) q (covers k e m h a) in
        absurd (omega (int_laws, a.close)))
settle g r entries ks x covers (inr (k, e, m, h, a, q)) =
    subst (λ y. IsNearest delta g r entries ks y.1) (sym q)
      ((k, m, h), a, λ j d n p b. subst (λ y. y.0 ≤ℤ delta r d) q (covers j d n p b))

pub fallback-IsNearest :
    (c : Cache) (r : Request) (ks : List Text)
    → IsNearest delta c.config r c.entries ks (fallback c r (some ks))
unfolding fallback start
fallback-IsNearest c r ks =
    settle c.config r c.entries ks (nearest c.config r c.entries (start c.config) ks)
      (nearest-covers c.config r c.entries (start c.config) ks)
      (nearest-attained c.config r c.entries (start c.config) ks)
