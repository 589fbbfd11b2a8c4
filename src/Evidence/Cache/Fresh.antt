-- ===== src/Evidence/Cache/Fresh.antt =====
-- With a clock that does not go back, and keys that are not used twice, the deques stand in the
-- order of time, so that the pruning leaves no expired frame and `resolve` never answers one.
use vms_engine.Common.Map.{Map, find, insert, find-insert, find-insert_self}
use vms_engine.Common.{
  ℕ, ◌≡◌, refl, sym, ◌∙◌, subst, Bool, false, inl, inr, not, Option, none, some, List, [], ◌∷◌,
  ◌++◌, Text, text_eq, text_beq_iff, ◌==◌, In, In-append_split, Bool-cases, arith, ℤ, ◌≤ℤ◌, if_keep,
}
use vms_engine.Evidence.Cache.{
  EvidenceConfig, ObjectSnapshot, Metadata, Entry, Cache, BatchSurface, SurfaceApi, Request,
  is_expired, prune_loop, put_back, prune_locked, or_empty, add_entry, store_cloned, store_frame,
  clone_surface_batch_item, resolve, clear, init,
}
use vms_engine.Evidence.Cache.Prune.{
  Ordered, Ordered-sub, Precedes, prune_loop-keeps, prune_loop-fresh, prune_loop-Ordered,
}
use vms_engine.Evidence.Cache.Owned.{
  IsSound, resolve-IsSound, store_frame-IsSound, empty-IsSound, source_of, prune_locked_cases,
  find-put_back, find-put_back_ne,
}
use vms_engine.Evidence.Cache.Resolve.{key_of, resolve_source}

-- The deque of `s`, if there is one, is in the order of time.
abbrev pub OrderedAt : Cache → Text → Type 0
OrderedAt c s = (ks : List Text) → find s c.source_entries ≡ some ks → Ordered c.entries ks

prune_locked-fresh :
    (c : Cache) (s : Text) (now : ℤ) (k : Text) (e : Entry) (ks : List Text)
    → OrderedAt c s
    → find s (prune_locked c s now).source_entries ≡ some ks
    → In k ks
    → find k (prune_locked c s now).entries ≡ some e
    → is_expired c.config now e ≡ false
unfolding put_back
prune_locked-fresh c s now k e ks o =
    prune_locked_cases
      (λ d.
        find s d.source_entries ≡ some ks
        → In k ks
        → find k d.entries ≡ some e
        → is_expired c.config now e ≡ false)
      c s now (λ absent h. absurd (ground arith))
      (λ old h p m q.
        let same = find-put_back c s (prune_loop c.config now c.entries old) ks p in
        prune_loop-fresh c.config now k e c.entries old (o old h) (subst (In k) same m) q)

-- From a sound cache whose deque for the source is in the order of time, `resolve` answers no
-- frame that is older than the configured lifetime.
pub resolve-fresh :
    (c : Cache) (r : Request) (now : ℤ) (e : Entry)
    → IsSound c
    → OrderedAt c (key_of r)
    → (resolve c r now).1 ≡ some e
    → is_expired c.config now e ≡ false
unfolding resolve
resolve-fresh c r now e h o p =
    let ((k, q), from) = resolve_source c r now e p in
    let (ks, f, m) = (resolve-IsSound c r now h).owned.queued k e q in
    prune_locked-fresh c (key_of r) now k e ks o
      (subst (λ s. find s (resolve c r now).0.source_entries ≡ some ks) from f) m q

-- A key that no deque holds.
abbrev pub IsNew : Cache → Text → Type 0
IsNew c x = (s : Text) (ks : List Text) → find s c.source_entries ≡ some ks → ¬ In x ks

pub record IsTimed (c : Cache) (t : ℤ) : Type 0 where
  pub ordered : (s : Text) → OrderedAt c s
  pub past : (k : Text) (e : Entry) → find k c.entries ≡ some e → e.cached_at_ms ≤ℤ t

Ordered-insert :
    (x : Text) (e : Entry) (entries : Map Text Entry) (ks : List Text)
    → ¬ In x ks
    → Ordered entries ks
    → Ordered (insert x e entries) ks
Ordered-insert x e entries [] n o = tt
Ordered-insert x e entries (k ∷ ks) n o = (
  λ j a b m p q.
      o.0 j a b m (old k a (λ i. n (inl i)) p)
        (old j b (λ i. n (inr (subst (λ y. In y ks) (sym i) m))) q),
  Ordered-insert x e entries ks (λ m. n (inr m)) o.1,
)
  where
    old :
        (j : Text) (a : Entry)
        → ¬ (x ≡ j)
        → find j (insert x e entries) ≡ some a
        → find j entries ≡ some a
    old j a d p = ground (arith, find-insert x j e entries, text_beq_iff x j)

Ordered-snoc :
    (x : Text) (entries : Map Text Entry) (ks : List Text)
    → Ordered entries ks
    → ((k : Text) (d e : Entry)
        → In k ks
        → find k entries ≡ some d
        → find x entries ≡ some e
        → d.cached_at_ms ≤ℤ e.cached_at_ms)
    → Ordered entries (ks ++ x ∷ [])
Ordered-snoc x entries [] o h = (λ j d e m. absurd m, tt)
Ordered-snoc x entries (k ∷ ks) o h =
    (precedes, Ordered-snoc x entries ks o.1 (λ j d e m. h j d e (inr m)))
  where
    precedes : Precedes entries k (ks ++ x ∷ [])
    precedes j d e m p q = elim (In-append_split j ks (x ∷ []) m) [
      | inl n ↦ o.0 j d e n p q
      | inr (inl n) ↦ h k d e (inl refl) p (subst (λ y. find y entries ≡ some e) n q)
      | inr (inr n) ↦ absurd n
    ]

-- The deque that gets the new key.
grown-Ordered :
    (c : Cache) (s : Text) (e : Entry) (t : ℤ) (o : Option (List Text))
    → IsNew c e.meta.frame_key
    → t ≤ℤ e.cached_at_ms
    → IsTimed c t
    → find s c.source_entries ≡ o
    → Ordered (insert e.meta.frame_key e c.entries) (or_empty o ++ e.meta.frame_key ∷ [])
grown-Ordered c s e t none new later h p = (λ j d a m. absurd m, tt)
grown-Ordered c s e t (some l) new later h p =
    let x : Text = e.meta.frame_key in
    Ordered-snoc x (insert x e c.entries) l
      (Ordered-insert x e c.entries l (new s l p) (h.ordered s l p))
      (λ k d a m q r.
        let apart : ¬ (x ≡ k) = λ i. new s l p (subst (λ y. In y l) (sym i) m) in
        ground (
          arith,
          find-insert x k e c.entries,
          find-insert_self x e c.entries,
          text_beq_iff x k,
          h.past k d,
        ))

add_entry-IsTimed :
    (c : Cache) (s : Text) (e : Entry) (t : ℤ)
    → IsNew c e.meta.frame_key
    → t ≤ℤ e.cached_at_ms
    → IsTimed c t
    → IsTimed (add_entry c s e) e.cached_at_ms
unfolding add_entry
add_entry-IsTimed c s e t new later h = record {
  ordered = λ u ks p. elim (Bool-cases (s == u)) [
    | inr q ↦
        let old = sym (find-insert s u _ c.source_entries ∙ rw q) ∙ p in
        Ordered-insert x e c.entries ks (new u ks old) (h.ordered u ks old)
    | inl q ↦
        let from : s ≡ u = (text_beq_iff s u).0 q in
        let keys : ks ≡ or_empty (find s c.source_entries) ++ x ∷ [] = ground (
          arith,
          find-insert s u (or_empty (find s c.source_entries) ++ x ∷ []) c.source_entries,
        ) in
        subst (Ordered (insert x e c.entries)) (sym keys)
          (grown-Ordered c s e t (find s c.source_entries) new later h refl)
  ];
  past = λ k d p. elim (Bool-cases (x == k)) [
    | inl q ↦ ground (arith, find-insert x k e c.entries)
    | inr q ↦ ground (arith, find-insert x k e c.entries, h.past k d)
  ];
}
  where
    x : Text
    x = e.meta.frame_key

prune_locked-sub :
    (c : Cache) (s : Text) (now : ℤ) (k : Text) (e : Entry)
    → find k (prune_locked c s now).entries ≡ some e
    → find k c.entries ≡ some e
unfolding put_back
prune_locked-sub c s now k e =
    prune_locked_cases (λ d. find k d.entries ≡ some e → find k c.entries ≡ some e) c s now
      (λ absent p. p) (λ ks h p. (prune_loop-keeps c.config now k e c.entries ks p).0)

prune_locked-OrderedAt :
    (c : Cache) (s u : Text) (now : ℤ)
    → ((v : Text) → OrderedAt c v)
    → OrderedAt (prune_locked c s now) u
unfolding put_back
prune_locked-OrderedAt c s u now o =
    prune_locked_cases (λ d. OrderedAt d u) c s now (λ absent. o u)
      (λ old h ks p. elim (Bool-cases (s == u)) [
        | inl q ↦
            let e : s ≡ u = (text_beq_iff s u).0 q in
            let same = find-put_back c s (prune_loop c.config now c.entries old) ks (
              subst
                (λ v.
                  find v (put_back c s (prune_loop c.config now c.entries old)).source_entries
                  ≡ some ks)
                (sym e) p) in
            subst (Ordered (prune_loop c.config now c.entries old).0) (sym same)
              (prune_loop-Ordered c.config now c.entries old (o s old h))
        | inr q ↦
            Ordered-sub c.entries (prune_loop c.config now c.entries old).0 ks
              (λ j d m. (prune_loop-keeps c.config now j d c.entries old m).0)
              (o u ks (sym (find-put_back_ne c s u (prune_loop c.config now c.entries old) q) ∙ p))
      ])

prune_locked-IsTimed :
    (c : Cache) (s : Text) (now t : ℤ) → IsTimed c t → IsTimed (prune_locked c s now) t
prune_locked-IsTimed c s now t h = record {
  ordered = λ u. prune_locked-OrderedAt c s u now h.ordered;
  past = λ k e p. h.past k e (prune_locked-sub c s now k e p);
}

IsTimed-mono : (c : Cache) (t u : ℤ) → t ≤ℤ u → IsTimed c t → IsTimed c u
IsTimed-mono c t u l h = record { ordered = h.ordered; past = λ k e p. omega (arith, h.past k e p) }

store_cloned-IsTimed :
    (c : Cache) (meta : Metadata) (objects : List ObjectSnapshot) (t now : ℤ) (surface : Option ℕ)
    → t ≤ℤ now
    → IsNew c meta.frame_key
    → IsTimed c t
    → IsTimed (store_cloned c meta objects now surface).0 now
unfolding store_cloned
store_cloned-IsTimed c meta objects t now none l n h = IsTimed-mono c t now l h
store_cloned-IsTimed c meta objects t now (some surface) l n h =
    prune_locked-IsTimed _ _ now now (add_entry-IsTimed c (source_of e) e t n l h)
  where
    e : Entry
    e = record { meta = meta; objects = objects; surface = surface; cached_at_ms = now }

store_frame-IsTimed :
    (api : SurfaceApi) (c : Cache) (meta : Metadata) (objects : List ObjectSnapshot)
    (batch : Option BatchSurface) (index t now : ℤ)
    → t ≤ℤ now
    → IsNew c meta.frame_key
    → IsTimed c t
    → IsTimed (store_frame api c meta objects batch index now).0 now
unfolding store_frame
store_frame-IsTimed api c meta objects batch index t now l n h =
    if_keep {A = Cache × Bool} (λ r. IsTimed r.0 now) (not c.config.cache_on_frame_events) _ _
      (IsTimed-mono c t now l h)
      (store_cloned-IsTimed c meta objects t now (clone_surface_batch_item api batch index) l n h)

-- The caches that calls lead to while the clock does not go back and no key is stored that a
-- deque still holds; the time is that of the last call.
pub data Reach (api : SurfaceApi) (g : EvidenceConfig) : Cache → ℤ → Type 0 where
  begin : (t : ℤ) → Reach api g (init g) t
  stores :
      (c : Cache) (t now : ℤ) (meta : Metadata) (objects : List ObjectSnapshot)
      (batch : Option BatchSurface) (index : ℤ)
      → Reach api g c t
      → t ≤ℤ now
      → IsNew c meta.frame_key
      → Reach api g (store_frame api c meta objects batch index now).0 now
  resolves :
      (c : Cache) (t now : ℤ) (r : Request)
      → Reach api g c t
      → t ≤ℤ now
      → Reach api g (resolve c r now).0 now
  clears : (c : Cache) (t : ℤ) → Reach api g c t → Reach api g (clear c) t

empty-IsTimed : (g : EvidenceConfig) (t : ℤ) → IsTimed (init g) t
unfolding init find
empty-IsTimed g t = record { ordered = λ s ks p. cc; past = λ k e p. cc }

Reach-invariants :
    (api : SurfaceApi) (g : EvidenceConfig) {c : Cache} {t : ℤ}
    → Reach api g c t
    → IsSound c × IsTimed c t
unfolding resolve clear init
Reach-invariants api g (begin t) = (empty-IsSound g, empty-IsTimed g t)
Reach-invariants api g (stores c t now meta objects batch index r l n) =
    let (s, h) = Reach-invariants api g r in
    (
      store_frame-IsSound api c meta objects batch index now s,
      store_frame-IsTimed api c meta objects batch index t now l n h,
    )
Reach-invariants api g (resolves c t now q r l) =
    let (s, h) = Reach-invariants api g r in
    (
      resolve-IsSound c q now s,
      prune_locked-IsTimed c (key_of q) now now (IsTimed-mono c t now l h),
    )
Reach-invariants api g (clears c t r) = (empty-IsSound c.config, empty-IsTimed c.config t)

-- In every cache that calls lead to while the clock does not go back and no key is stored that a
-- deque still holds, no request is answered by a frame that is older than the configured lifetime.
pub Reach-fresh :
    (api : SurfaceApi) (g : EvidenceConfig) (c : Cache) (t now : ℤ) (r : Request) (e : Entry)
    → Reach api g c t
    → (resolve c r now).1 ≡ some e
    → is_expired c.config now e ≡ false
Reach-fresh api g c t now r e reach p =
    let (s, h) = Reach-invariants api g reach in resolve-fresh c r now e s (h.ordered (key_of r)) p
