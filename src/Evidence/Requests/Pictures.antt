-- ===== src/Evidence/Requests/Pictures.antt =====
-- The picture behind a reference: one that the encoder wrote for the job, or one that the ledger
-- had from before.
pub mod Steps
pub mod Known
pub mod Answer
use vms_engine.Common.Map.{Map, find, erase, insert, find-erase, find-insert}
use vms_engine.Common.{
  ℕ, ◌≡◌, ◌≢◌, refl, sym, ◌∙◌, ap, subst, ◌⊎◌, inl, inr, Bool, true, false, not, ◌&&◌, ◌||◌, Option,
  none, some, List, [], ◌∷◌, ◌++◌, Text, codes, text_eq, text_beq_iff, ◌==◌, is_empty, if_keep,
  if_split, Bool-cases, Option-cases, arith, ℤ, int_to_string,
}
use vms_engine.Evidence.Cache.{Cache, Entry, ObjectSnapshot, Request, resolve, find_object}
use vms_engine.Evidence.Recent.{
  RecentConfig, Ledger, FrameRoute, build_recent_ref_key, is_stale, is_crowded, is_unkept,
  prune_refs, prune_recently_encoded_locked, put_ref, was_recently_encoded, mark_recently_encoded,
}
use vms_engine.Evidence.Output.{Outcome, done, failed, FilePath, resolve_output_path}
use vms_engine.Evidence.Requests.{
  RequestObject, Job, ServiceConfig, Crop, World, Service, was_encoded, mark_encoded, written,
}
use vms_engine.Evidence.Requests.Encode.{
  is_missing, encode_at, encode_overview, crop_of, crop_ref_of, encode_crop, crop_step,
}
use vms_engine.Evidence.Requests.Process.{request_of}

append_cancel : (s t u : Text) → s ++ t ≡ s ++ u → t ≡ u
append_cancel [] t u e = e
append_cancel (c ∷ s) t u e = append_cancel s t u (cc)

-- A frame has one key for each reference.
build_recent_ref_key_injective :
    (r : FrameRoute) (a b : Text) → build_recent_ref_key r a ≡ build_recent_ref_key r b → a ≡ b
unfolding build_recent_ref_key
build_recent_ref_key_injective r a b e =
    let bar = codes "|" in
    append_cancel bar a b (
      append_cancel r.frame_key _ _ (
        append_cancel bar _ _ (
          append_cancel (int_to_string r.source_id) _ _ (
            append_cancel bar _ _ (
              append_cancel r.source_name _ _
                (append_cancel bar _ _ (append_cancel r.pipeline_id _ _ e)))))))

-- A pruning brings no reference.
prune_refs_sub :
    (g : RecentConfig) (now : ℤ) (k : Text) (at : ℤ) (ks : List Text) (refs : Map Text ℤ)
    → find k (prune_refs g now refs ks).refs ≡ some at
    → find k refs ≡ some at
unfolding prune_refs
prune_refs_sub g now k at [] refs h = h
prune_refs_sub g now k at (j ∷ ks) refs h = elim (Option-cases (find j refs)) [
  | inl e ↦ prune_refs_sub g now k at ks refs (ground arith)
  | inr (t, e) ↦ elim (Bool-cases (is_stale g now t || is_crowded g refs)) [
    | inl q ↦
        let h' = prune_refs_sub g now k at ks (erase j refs) (ground arith) in
        ground (arith, find-erase j k refs)
    | inr q ↦ ground arith
  ]
]

put_ref-find :
    (l : Ledger) (k j : Text) (now at : ℤ)
    → find j (put_ref l k now).refs ≡ some at
    → (k ≡ j) ⊎ (find j l.refs ≡ some at)
unfolding put_ref
put_ref-find l k j now at h = elim (Bool-cases (k == j)) [
  | inl q ↦ inl ((text_beq_iff k j).0 q)
  | inr q ↦ inr (ground (arith, find-insert k j now l.refs))
]

-- The frame of the cache `c` that the job is about, at the time at which it is looked up.
abbrev pub IsFrame : Cache → Job → Entry → Type 0
IsFrame c job e = (now : ℤ) × ((resolve c (request_of job) now).1 ≡ some e)

-- The encoder wrote a picture of the frame, or of a crop of it, to the file of the reference.
abbrev pub Encoded : World → Entry → FilePath → Type 0
Encoded w e p =
    (w.encode_overview_to_file e p ≡ none)
    ⊎ ((crop : Crop) × (w.encode_crop_to_file e crop p ≡ none))

abbrev pub Written : ServiceConfig → World → Cache → Job → Text → Type 0
Written g w c job ref =
    (p : FilePath) × (e : Entry) × (resolve_output_path w.make_dirs g.save_dir ref ≡ done p)
    × IsFrame c job e
    × Encoded w e p

-- With the service as it was before the job.
abbrev pub IsPictured : ServiceConfig → World → Service → Job → Text → Type 0
IsPictured g w s job ref =
    ((at : ℤ) × (find (build_recent_ref_key job.route ref) s.ledger.refs ≡ some at))
    ⊎ Written g w s.cache job ref

module _ (g : ServiceConfig) (w : World) (job : Job) (s : Service) where
  -- What the ledger has is from before, or was written for the job.
  abbrev pub IsKnownKey : Text → Type 0
  IsKnownKey k =
      ((at : ℤ) × (find k s.ledger.refs ≡ some at))
      ⊎ ((ref : Text) × (k ≡ build_recent_ref_key job.route ref) × Written g w s.cache job ref)

  pub record IsBacked (l : Ledger) : Type 0 where
    pub known : (k : Text) (at : ℤ) → find k l.refs ≡ some at → IsKnownKey k

  pub start-IsBacked : IsBacked s.ledger
  start-IsBacked = record { known = λ k at h. inl (at, h) }

  pruned-IsBacked :
      (l : Ledger) (now : ℤ) → IsBacked l → IsBacked (prune_recently_encoded_locked g.recent l now)
  unfolding prune_recently_encoded_locked
  pruned-IsBacked l now b = record {
    known = λ k at h. b.known k at (prune_refs_sub g.recent now k at l.order l.refs h);
  }

  pub was_encoded-IsBacked :
      (t : Service) (ref : Text) → IsBacked t.ledger → IsBacked (was_encoded g w t job ref).0.ledger
  unfolding was_encoded was_recently_encoded
  was_encoded-IsBacked t ref b =
      if_keep (λ (x : Ledger × Bool). IsBacked x.0) (is_unkept g.recent ref) _ _ b
        (pruned-IsBacked t.ledger _ b)

  known-IsPictured :
      (ref : Text) → IsKnownKey (build_recent_ref_key job.route ref) → IsPictured g w s job ref
  known-IsPictured ref (inl old) = inl old
  known-IsPictured ref (inr (other, same, new)) = inr (
      subst (Written g w s.cache job)
        (sym (build_recent_ref_key_injective job.route ref other same)) new)

  found-IsPictured :
      (l : Ledger) (now : ℤ) (ref : Text)
      → IsBacked l
      → (was_recently_encoded g.recent l job.route ref now).1 ≡ true
      → IsPictured g w s job ref
  unfolding was_recently_encoded
  found-IsPictured l now ref b h =
      let l' = prune_recently_encoded_locked g.recent l now in
      elim (Option-cases (find (build_recent_ref_key job.route ref) l'.refs)) [
        | inl e ↦ absurd (ground arith)
        | inr (at, e) ↦ known-IsPictured ref ((pruned-IsBacked l now b).known _ at e)
      ]

  pub was_encoded-IsPictured :
      (t : Service) (ref : Text)
      → IsBacked t.ledger
      → (was_encoded g w t job ref).1 ≡ true
      → IsPictured g w s job ref
  unfolding was_encoded
  was_encoded-IsPictured t ref b h = found-IsPictured t.ledger _ ref b h

  pub mark_encoded-IsBacked :
      (t : Service) (ref : Text)
      → Written g w s.cache job ref
      → IsBacked t.ledger
      → IsBacked (mark_encoded g w t job ref).ledger
  unfolding mark_encoded mark_recently_encoded
  mark_encoded-IsBacked t ref new b =
      let now = w.clock t.reads in
      let l = prune_recently_encoded_locked g.recent t.ledger now in
      let key = build_recent_ref_key job.route ref in
      let put : IsBacked (put_ref l key now) = record {
        known = λ k at h. elim (put_ref-find l key k now at h) [
          | inl e ↦ inr (ref, sym e, new)
          | inr f ↦ (pruned-IsBacked t.ledger now b).known k at f
        ];
      } in
      if_keep (λ (x : Ledger). IsBacked x) (is_unkept g.recent ref) _ _ b
        (pruned-IsBacked _ now put)
