-- ===== src/Evidence/Cache/Resolve.antt =====
-- The frame that a request gets: the exact one first, else the nearest in time.
use vms_engine.Common.Map.{Map, find}
use vms_engine.Common.{
  ◌≡◌, sym, subst, true, ◌⊎◌, inl, inr, ◌∙◌, Option, none, some, List, [], ◌∷◌, Text, text_eq,
  text_beq_iff, int_beq_iff, All, ◌==◌, Bool-cases, Option-cases, arith, ℤ, pos, ◌≤ℤ◌, ◌-ℤ◌,
  llabs_fits,
}
use vms_engine.Evidence.Cache.{
  Entry, Cache, Request, matches, delta, nearest, fallback, pick, pick_from, route_matches,
  put_back, prune_locked, resolve, make_source_key,
}
use vms_engine.Evidence.Cache.Prune.{prune_loop-keeps}
use vms_engine.Evidence.Cache.Owned.{prune_locked_cases}
use vms_engine.Evidence.Cache.Nearest.{distance, IsNearest, IsNearest-agree, fallback-IsNearest}

-- What `resolve` answers, in terms of the cache that the pruning left.
abbrev pub IsExact : Cache → Request → Entry → Type 0
IsExact c r e = (find r.frame_key c.entries ≡ some e) × (matches r e ≡ true)

abbrev pub queue_of : Cache → Text → List Text
queue_of c s = elim (find s c.source_entries) [ none ↦ [] | some ks ↦ ks ]

abbrev pub Answer : (Request → Entry → ℤ) → Cache → Request → Text → Option Entry → Type 0
Answer d c r s answer =
    ((e : Entry) × IsExact c r e × (answer ≡ some e))
    ⊎ (((e : Entry) → ¬ IsExact c r e) × IsNearest d c.config r c.entries (queue_of c s) answer)

fallback-queue_of :
    (c : Cache) (r : Request) (s : Text)
    → IsNearest delta c.config r c.entries (queue_of c s) (fallback c r (find s c.source_entries))
unfolding fallback
fallback-queue_of c r s = go (find s c.source_entries)
  where
    go :
        (o : Option (List Text))
        → IsNearest delta c.config r c.entries
            (elim o [ none ↦ [] | some ks ↦ ks ])
            (fallback c r o)
    go none = λ k e m. absurd m
    go (some ks) = fallback-IsNearest c r ks

pick_from-Answer : (c : Cache) (r : Request) (s : Text) → Answer delta c r s (pick_from c r s)
unfolding pick_from pick
pick_from-Answer c r s = elim (Option-cases (find r.frame_key c.entries)) [
  | inl h ↦ rw (h, pick) (inr (λ e x. cc, fallback-queue_of c r s))
  | inr (e, h) ↦ elim (Bool-cases (matches r e)) [
    | inl q ↦ inl (e, (h, q), ground arith)
    | inr q ↦
        let same : pick_from c r s ≡ fallback c r (find s c.source_entries) = ground arith in
        inr (
          λ d x. ground arith,
          subst (IsNearest delta c.config r c.entries (queue_of c s)) (sym same)
              (fallback-queue_of c r s),
        )
  ]
]

-- The source that a request is about.
abbrev pub key_of : Request → Text
key_of r = make_source_key r.pipeline_id r.source_name r.source_id

-- By the measure of the code.
resolve-Answer-delta :
    (c : Cache) (r : Request) (now : ℤ)
    → Answer delta (resolve c r now).0 r (key_of r) (resolve c r now).1
unfolding resolve
resolve-Answer-delta c r now = pick_from-Answer (prune_locked c (key_of r) now) r (key_of r)

-- The differences between the times of the frames and the time of the request fit in 64 bits.
abbrev pub IsInRange : Cache → Request → Type 0
IsInRange c r = All (λ p. distance r p.1 ≤ℤ pos 9223372036854775807) c.entries

find-All :
    (P : Entry → Type 0) (entries : Map Text Entry) (k : Text) (e : Entry)
    → All (λ p. P p.1) entries
    → find k entries ≡ some e
    → P e
unfolding find
find-All P [] k e all f = absurd (cc)
find-All P ((j, d) ∷ entries) k e all f = elim (Bool-cases (j == k)) [
  | inl q ↦ let same : d ≡ e = ground arith in subst P same all.0
  | inr q ↦ find-All P entries k e all.1 (ground arith)
]

delta-distance :
    (r : Request) (e : Entry) → distance r e ≤ℤ pos 9223372036854775807 → delta r e ≡ distance r e
unfolding delta
delta-distance r e h = llabs_fits (e.meta.frame_ts_ms -ℤ r.frame_ts_ms) h

resolve_sub :
    (c : Cache) (r : Request) (now : ℤ) (k : Text) (e : Entry)
    → find k (resolve c r now).0.entries ≡ some e
    → find k c.entries ≡ some e
unfolding resolve put_back
resolve_sub c r now k e =
    prune_locked_cases (λ d. find k d.entries ≡ some e → find k c.entries ≡ some e) c (key_of r) now
      (λ absent h. h) (λ ks p h. (prune_loop-keeps c.config now k e c.entries ks h).0)

-- If the differences between the times of its frames and the time of the request fit in 64 bits,
-- then in the cache as the pruning leaves it, `resolve` answers with the frame of that very key, if
-- it is there and comes from the source asked for. Otherwise it answers with the frame of that
-- source nearest in time, among those within the configured gap, and with none only if there is
-- none.
pub resolve-Answer :
    (c : Cache) (r : Request) (now : ℤ)
    → IsInRange c r
    → Answer distance (resolve c r now).0 r (key_of r) (resolve c r now).1
resolve-Answer c r now fits = elim (resolve-Answer-delta c r now) [
  | inl exact ↦ inl exact
  | inr (other, nearest) ↦ inr (
    other,
    IsNearest-agree delta distance (resolve c r now).0.config r (resolve c r now).0.entries _ _
        (λ k e f. delta-distance r e (
          find-All (λ d. distance r d ≤ℤ pos 9223372036854775807) c.entries k e fits
            (resolve_sub c r now k e f)))
        nearest,
  )
]

matches-source :
    (r : Request) (e : Entry)
    → matches r e ≡ true
    → make_source_key e.meta.pipeline_id e.meta.source_name e.meta.source_id ≡ key_of r
unfolding route_matches
matches-source r e h = ground (
  arith,
  text_beq_iff e.meta.pipeline_id r.pipeline_id,
  text_beq_iff e.meta.source_name r.source_name,
  int_beq_iff e.meta.source_id r.source_id,
)

-- The answer stands in the cache, and is of the source asked for.
pub resolve_source :
    (c : Cache) (r : Request) (now : ℤ) (e : Entry)
    → (resolve c r now).1 ≡ some e
    → ((k : Text) × (find k (resolve c r now).0.entries ≡ some e))
      × (make_source_key e.meta.pipeline_id e.meta.source_name e.meta.source_id ≡ key_of r)
resolve_source c r now e h = go (resolve c r now).1 h (resolve-Answer-delta c r now)
  where
    c' : Cache
    c' = (resolve c r now).0

    go :
        (answer : Option Entry)
        → answer ≡ some e
        → Answer delta c' r (key_of r) answer
        → ((k : Text) × (find k c'.entries ≡ some e))
          × (make_source_key e.meta.pipeline_id e.meta.source_name e.meta.source_id ≡ key_of r)
    go answer p (inl (d, x, q)) =
        let same : d ≡ e = cc in
        (
          (r.frame_key, x.0 ∙ sym q ∙ p),
          matches-source r e (subst (λ y. matches r y ≡ true) same x.1),
        )
    go none p (inr n) = absurd (cc)
    go (some d) p (inr n) =
        let same : d ≡ e = cc in
        (
          (n.1.0.0, n.1.0.2 ∙ p),
          matches-source r e (subst (λ y. matches r y ≡ true) same n.1.1.routed),
        )
