-- ===== src/Evidence/Cache/Owned.antt =====
-- The invariant of the frame cache: every frame is in the deque of its own source, so that the
-- pruning of that source can reach it, and every deque is within the limit.
use vms_engine.Common.Map.{
  Map, find, insert, find-erase, find-insert, find-erase_self, find-insert_self,
}
use vms_engine.Common.{
  ℕ, ◌≡◌, refl, sym, ◌∙◌, subst, Bool, false, inl, inr, Option, none, some, List, [], ◌∷◌, ◌++◌,
  Text, text_eq, text_beq_iff, ◌==◌, In, In-append_left, In-append_right, Bool-cases, Option-cases,
  arith, ℤ, if_keep, not,
}
use vms_engine.Evidence.Cache.{
  EvidenceConfig, ObjectSnapshot, Metadata, Entry, Cache, BatchSurface, SurfaceApi, Request,
  is_over_limit, prune_loop, put_back, prune_locked, or_empty, add_entry, store_cloned, store_frame,
  clone_surface_batch_item, make_source_key, resolve, clear, init,
}
use vms_engine.Evidence.Cache.Prune.{prune_loop-keeps, prune_loop-IsBounded}

-- The source that a frame came from.
abbrev pub source_of : Entry → Text
source_of e = make_source_key e.meta.pipeline_id e.meta.source_name e.meta.source_id

abbrev pub Queued : Map Text (List Text) → Text → Text → Type 0
Queued sources s k = (ks : List Text) × (find s sources ≡ some ks) × In k ks

pub record IsOwned (c : Cache) : Type 0 where
  pub queued :
      (k : Text) (e : Entry) → find k c.entries ≡ some e → Queued c.source_entries (source_of e) k
  pub named : (k : Text) (e : Entry) → find k c.entries ≡ some e → e.meta.frame_key ≡ k

-- Every deque but that of `s` is within the limit.
abbrev pub BoundedBut : Cache → Text → Type 0
BoundedBut c s =
    (t : Text) (ks : List Text)
    → (s == t) ≡ false
    → find t c.source_entries ≡ some ks
    → is_over_limit c.config ks ≡ false

abbrev pub IsBounded : Cache → Type 0
IsBounded c =
    (t : Text) (ks : List Text)
    → find t c.source_entries ≡ some ks
    → is_over_limit c.config ks ≡ false

pub find-put_back_ne :
    (c : Cache) (s t : Text) (r : Map Text Entry × List Text)
    → (s == t) ≡ false
    → find t (put_back c s r).source_entries ≡ find t c.source_entries
unfolding put_back
find-put_back_ne c s t (entries, []) h = rw (find-erase, h)
find-put_back_ne c s t (entries, k ∷ ks) h = rw (find-insert, h)

pub find-put_back :
    (c : Cache) (s : Text) (r : Map Text Entry × List Text) (ks : List Text)
    → find s (put_back c s r).source_entries ≡ some ks
    → ks ≡ r.1
unfolding put_back
find-put_back c s (entries, []) ks h = cc (find-erase_self s c.source_entries)
find-put_back c s (entries, k ∷ l) ks h = cc (find-insert_self s (k ∷ l) c.source_entries)

pub find-put_back_self :
    (c : Cache) (s k : Text) (r : Map Text Entry × List Text)
    → In k r.1
    → find s (put_back c s r).source_entries ≡ some r.1
unfolding put_back
find-put_back_self c s k (entries, []) m = elim m [ ]
find-put_back_self c s k (entries, j ∷ l) m = find-insert_self s (j ∷ l) c.source_entries

put_back-Queued :
    (c : Cache) (s t k : Text) (ks : List Text) (r : Map Text Entry × List Text)
    → find s c.source_entries ≡ some ks
    → (In k ks → In k r.1)
    → Queued c.source_entries t k
    → Queued (put_back c s r).source_entries t k
put_back-Queued c s t k ks r f keep (l, p, m) = elim (Bool-cases (s == t)) [
  | inl q ↦
      let e : s ≡ t = (text_beq_iff s t).0 q in
      let n : In k r.1 = keep (ground arith) in rw (← e) (r.1, find-put_back_self c s k r n, n)
  | inr q ↦ (l, rw find-put_back_ne p, m)
]

pub prune_locked_cases {ℓ} :
    (P : Cache → Type ℓ) (c : Cache) (s : Text) (now : ℤ)
    → (find s c.source_entries ≡ none → P c)
    → ((ks : List Text)
        → find s c.source_entries ≡ some ks
        → P (put_back c s (prune_loop c.config now c.entries ks)))
    → P (prune_locked c s now)
unfolding prune_locked
prune_locked_cases P c s now absent present = elim (Option-cases (find s c.source_entries)) [
  | inl h ↦ rw (h, prune_locked) (absent h)
  | inr (ks, h) ↦ rw (h, prune_locked) (present ks h)
]

put_back-IsBounded :
    (c : Cache) (s : Text) (r : Map Text Entry × List Text)
    → BoundedBut c s
    → is_over_limit c.config r.1 ≡ false
    → IsBounded (put_back c s r)
unfolding put_back
put_back-IsBounded c s r b f t ks h = elim (Bool-cases (s == t)) [
  | inl q ↦
      let e : s ≡ t = (text_beq_iff s t).0 q in
      let g = λ (x : Text). find x (put_back c s r).source_entries ≡ some ks in
      rw (find-put_back c s r ks (subst g (sym e) h)) f
  | inr q ↦ b t ks q (sym (find-put_back_ne c s t r q) ∙ h)
]

prune_locked-IsBounded :
    (c : Cache) (s : Text) (now : ℤ) → BoundedBut c s → IsBounded (prune_locked c s now)
prune_locked-IsBounded c s now b =
    prune_locked_cases IsBounded c s now
      (λ absent t ks h. elim (Bool-cases (s == t)) [
        | inl q ↦ absurd (ground (arith, text_beq_iff s t))
        | inr q ↦ b t ks q h
      ])
      (λ ks h. put_back-IsBounded c s _ b (prune_loop-IsBounded c.config now c.entries ks).0)

prune_locked-IsOwned : (c : Cache) (s : Text) (now : ℤ) → IsOwned c → IsOwned (prune_locked c s now)
unfolding put_back
prune_locked-IsOwned c s now o =
    prune_locked_cases IsOwned c s now (λ absent. o)
      (λ ks h. record {
        queued = λ k e p.
            let kept = prune_loop-keeps c.config now k e c.entries ks p in
            put_back-Queued c s (source_of e) k ks (prune_loop c.config now c.entries ks) h kept.1
              (o.queued k e kept.0);
        named = λ k e p. o.named k e (prune_loop-keeps c.config now k e c.entries ks p).0;
      })

abbrev pushed : Map Text (List Text) → Text → Text → Map Text (List Text)
pushed m s x = insert s (or_empty (find s m) ++ x ∷ []) m

pushed-Queued_self : (m : Map Text (List Text)) (s x : Text) → Queued (pushed m s x) s x
pushed-Queued_self m s x = (
  or_empty (find s m) ++ x ∷ [],
  find-insert_self s _ m,
  In-append_right x (or_empty (find s m)) (x ∷ []) (inl refl),
)

pushed-Queued :
    (m : Map Text (List Text)) (s t x k : Text) → Queued m t k → Queued (pushed m s x) t k
pushed-Queued m s t x k (ks, p, n) = elim (Bool-cases (s == t)) [
  | inl q ↦
      let e : s ≡ t = (text_beq_iff s t).0 q in
      rw (← e) (
        or_empty (find s m) ++ x ∷ [],
        find-insert_self s _ m,
        In-append_left k (or_empty (find s m)) (x ∷ []) (rw (e, p) n),
      )
  | inr q ↦ (ks, find-insert s t _ m ∙ rw q p, n)
]

add_entry-IsOwned : (c : Cache) (e : Entry) → IsOwned c → IsOwned (add_entry c (source_of e) e)
unfolding add_entry
add_entry-IsOwned c e o = record {
  queued = λ k d p. elim (Bool-cases (e.meta.frame_key == k)) [
    | inl q ↦
        let same : e.meta.frame_key ≡ k = (text_beq_iff e.meta.frame_key k).0 q in
        let new : e ≡ d = ground (arith, find-insert e.meta.frame_key k e c.entries) in
        rw (← new, ← same) (pushed-Queued_self c.source_entries (source_of e) e.meta.frame_key)
    | inr q ↦
        pushed-Queued c.source_entries (source_of e) (source_of d) e.meta.frame_key k
          (o.queued k d (ground (arith, find-insert e.meta.frame_key k e c.entries)))
  ];
  named = λ k d p. elim (Bool-cases (e.meta.frame_key == k)) [
    | inl q ↦
        ground (arith, find-insert e.meta.frame_key k e c.entries, text_beq_iff e.meta.frame_key k)
    | inr q ↦ o.named k d (ground (arith, find-insert e.meta.frame_key k e c.entries))
  ];
}

add_entry-BoundedBut :
    (c : Cache) (s : Text) (e : Entry) → IsBounded c → BoundedBut (add_entry c s e) s
unfolding add_entry
add_entry-BoundedBut c s e b t ks q h = b t ks (sym (find-insert s t _ c.source_entries ∙ rw q) ∙ h)

-- What holds between calls.
pub record IsSound (c : Cache) : Type 0 where
  pub owned : IsOwned c
  pub bounded : IsBounded c

prune_locked-IsSound : (c : Cache) (s : Text) (now : ℤ) → IsSound c → IsSound (prune_locked c s now)
prune_locked-IsSound c s now h = record {
  owned = prune_locked-IsOwned c s now h.owned;
  bounded = prune_locked-IsBounded c s now (λ t ks q. h.bounded t ks);
}

store_cloned-IsSound :
    (c : Cache) (meta : Metadata) (objects : List ObjectSnapshot) (now : ℤ) (surface : Option ℕ)
    → IsSound c
    → IsSound (store_cloned c meta objects now surface).0
unfolding store_cloned
store_cloned-IsSound c meta objects now none h = h
store_cloned-IsSound c meta objects now (some surface) h = record {
  owned = prune_locked-IsOwned _ _ now (add_entry-IsOwned c e h.owned);
  bounded = prune_locked-IsBounded _ _ now (add_entry-BoundedBut c (source_of e) e h.bounded);
}
  where
    e : Entry
    e = record { meta = meta; objects = objects; surface = surface; cached_at_ms = now }

pub store_frame-IsSound :
    (api : SurfaceApi) (c : Cache) (meta : Metadata) (objects : List ObjectSnapshot)
    (batch : Option BatchSurface) (index now : ℤ)
    → IsSound c
    → IsSound (store_frame api c meta objects batch index now).0
unfolding store_frame
store_frame-IsSound api c meta objects batch index now h =
    if_keep {A = Cache × Bool} (λ r. IsSound r.0) (not c.config.cache_on_frame_events) _ _ h
      (store_cloned-IsSound c meta objects now (clone_surface_batch_item api batch index) h)

pub resolve-IsSound : (c : Cache) (r : Request) (now : ℤ) → IsSound c → IsSound (resolve c r now).0
unfolding resolve
resolve-IsSound c r now h = prune_locked-IsSound c _ now h

-- The calls on a cache, each with the clock's value.
pub data Call : Type 0 where
  stores : Metadata → List ObjectSnapshot → Option BatchSurface → ℤ → ℤ → Call
  resolves : Request → ℤ → Call
  clears : Call

unfoldable pub step : SurfaceApi → Cache → Call → Cache
step api c (stores meta objects batch index now) =
    (store_frame api c meta objects batch index now).0
step api c (resolves r now) = (resolve c r now).0
step api c clears = clear c

unfoldable pub run : SurfaceApi → Cache → List Call → Cache
run api c [] = c
run api c (call ∷ calls) = run api (step api c call) calls

pub empty-IsSound : (g : EvidenceConfig) → IsSound (init g)
unfolding init find
empty-IsSound g = record {
  owned = record { queued = λ k e p. cc; named = λ k e p. cc };
  bounded = λ t ks p. cc;
}

pub step-IsSound :
    (api : SurfaceApi) (c : Cache) (call : Call) → IsSound c → IsSound (step api c call)
unfolding step clear init
step-IsSound api c (stores meta objects batch index now) h =
    store_frame-IsSound api c meta objects batch index now h
step-IsSound api c (resolves r now) h = resolve-IsSound c r now h
step-IsSound api c clears h = empty-IsSound c.config

run-IsSound :
    (api : SurfaceApi) (c : Cache) (calls : List Call) → IsSound c → IsSound (run api c calls)
unfolding run
run-IsSound api c [] h = h
run-IsSound api c (call ∷ calls) h =
    run-IsSound api (step api c call) calls (step-IsSound api c call h)

-- In every cache that calls lead to, each frame is under its own key and in the deque of its own
-- source, and no deque is over the configured limit.
pub run-init-IsSound :
    (api : SurfaceApi) (g : EvidenceConfig) (calls : List Call) → IsSound (run api (init g) calls)
run-init-IsSound api g calls = run-IsSound api (init g) calls (empty-IsSound g)
