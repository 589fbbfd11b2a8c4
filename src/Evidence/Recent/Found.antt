-- ===== src/Evidence/Recent/Found.antt =====
-- What a pruning of the ledger leaves in it.
pub mod Kept
use vms_engine.Common.Map.{Map, find, erase, insert, find-erase, find-insert_self, length-erase}
use vms_engine.Common.{
  ℕ, suc, ◌+◌, ◌≤◌, ◌≡◌, ◌≢◌, refl, sym, ap, ◌∙◌, subst, inl, inr, Bool, true, false, ◌||◌, Option,
  none, some, List, [], ◌∷◌, ◌++◌, Text, text_eq, text_beq_iff, ◌==◌, arith, In, In-append_right,
  length, Bool-cases, Option-cases, ℤ, pos, ◌≤ℤ◌, ◌-ℤ◌, leb_ℤ, if_keep, if_split, if◌then◌else◌,
  is_empty, none-ne-some,
}
use vms_engine.Evidence.Recent.{
  RecentConfig, Ledger, FrameRoute, build_recent_ref_key, is_stale, is_crowded, prune_refs,
  prune_recently_encoded_locked, is_unkept, was_recently_encoded, put_ref, mark_recently_encoded,
  is_recent,
}
use vms_engine.Evidence.Recent.Tracked.{
  IsTracked, IsTrackedLedger, IsWithin, prune_refs_cases, prune_refs-IsTracked, prune_refs-IsWithin,
  put_ref-IsTracked, IsTracked-drop, empty_of_IsTracked,
}

-- There are no more references than the order lists.
length-IsTracked :
    (refs : Map Text ℤ) (ks : List Text) → IsTracked refs ks → length refs ≤ length ks
length-IsTracked refs [] w = let e = empty_of_IsTracked refs w in ground arith
length-IsTracked refs (k ∷ ks) w = elim (Option-cases (find k refs)) [
  | inl e ↦ absurd (w.present k (inl refl) e)
  | inr (t, e) ↦ omega (
    arith,
    length-erase k refs t w.distinct e,
    length-IsTracked (erase k refs) ks (IsTracked-drop refs k ks w),
  )
]

module _ (g : RecentConfig) (now t : ℤ) (key : Text) (fresh : is_stale g now t ≡ false) where
  -- Another reference goes.
  kept_by_erase :
      (refs : Map Text ℤ) (k : Text)
      → k ≢ key
      → find key refs ≡ some t
      → find key (erase k refs) ≡ some t
  kept_by_erase refs k n f = ground (arith, find-erase k key refs, text_beq_iff k key)

  -- A stale reference is another one.
  fresh_stays :
      (refs : Map Text ℤ) (k : Text) (u : ℤ)
      → k ≡ key
      → find k refs ≡ some u
      → find key refs ≡ some t
      → is_stale g now u ≡ true
      → ⊥
  fresh_stays refs k u e h f b =
      let same : u ≡ t = cc (sym h ∙ ap (λ x. find x refs) e ∙ f) in
      ground (arith, sym b ∙ ap (is_stale g now) same ∙ fresh)

  -- Within the limit only stale references go.
  pub uncrowded-keeps :
      (refs : Map Text ℤ) (ks : List Text)
      → IsTracked refs ks
      → is_crowded g refs ≡ false
      → find key refs ≡ some t
      → find key (prune_refs g now refs ks).refs ≡ some t
  unfolding is_crowded
  uncrowded-keeps =
      prune_refs_cases g now
        (λ refs ks r. is_crowded g refs ≡ false → find key refs ≡ some t → find key r.refs ≡ some t)
        (λ refs w c f. f)
        (λ refs k ks u r w h b ih c f.
          ih (ground (arith, length-erase k refs u w.distinct h))
            (kept_by_erase refs k (λ e. fresh_stays refs k u e h f (ground arith)) f))
        (λ refs k ks u w h b c f. f)

  -- The last reference of the order is the only one, and so is not one too many.
  alone :
      (refs : Map Text ℤ) (k : Text) (ks : List Text)
      → IsTracked refs (k ∷ ks)
      → ks ≡ []
      → is_crowded g refs ≡ false
  unfolding is_crowded
  alone refs k ks w e =
      let one : length (k ∷ ks) ≡ 1 = ap (λ l. length (k ∷ l)) e in
      ground (arith, length-IsTracked refs (k ∷ ks) w)

  newest_of :
      (refs : Map Text ℤ) (k : Text) (ks : List Text) (u : ℤ) (r : Ledger)
      → IsTracked refs (k ∷ ks)
      → find k refs ≡ some u
      → (is_stale g now u || is_crowded g refs) ≡ true
      → ((front : List Text)
          → ks ≡ front ++ key ∷ []
          → find key (erase k refs) ≡ some t
          → find key r.refs ≡ some t)
      → (front : List Text) → k ∷ ks ≡ front ++ key ∷ []
      → find key refs ≡ some t
      → find key r.refs ≡ some t
  newest_of refs k ks u r w h b ih [] e f =
      let last : ks ≡ [] = cc e in
      let same : k ≡ key = cc e in
      absurd (fresh_stays refs k u same h f (ground (arith, alone refs k ks w last)))
  newest_of refs k ks u r w h b ih (x ∷ xs) e f =
      let rest : ks ≡ xs ++ key ∷ [] = cc e in
      ih xs rest (
        kept_by_erase refs k
          (λ q.
            w.apart.0 (subst (λ l. In k l) (sym rest) (In-append_right k xs (key ∷ []) (inl q))))
          f)

  -- The newest reference stays also where older ones are too many.
  pub newest-stays :
      (refs : Map Text ℤ) (ks : List Text)
      → IsTracked refs ks
      → (front : List Text) → ks ≡ front ++ key ∷ []
      → find key refs ≡ some t
      → find key (prune_refs g now refs ks).refs ≡ some t
  unfolding is_crowded
  newest-stays =
      prune_refs_cases g now
        (λ refs ks r.
          (front : List Text)
          → ks ≡ front ++ key ∷ []
          → find key refs ≡ some t
          → find key r.refs ≡ some t)
        (λ refs w front e f. f) newest_of (λ refs k ks u w h b front e f. f)
