-- ===== src/Evidence/Recent.antt =====
-- pipeline/src/evidence/evidence_request_service.cpp: the ledger of references that were encoded a
-- short time ago. The clock's value is an argument; the mutex makes each call one step.
pub mod Tracked
pub mod Found
mod Tests
use vms_engine.Common.Map.{Map, find, erase, insert}
use vms_engine.Common.{
  ℕ, Bool, true, false, not, ◌&&◌, ◌||◌, Option, none, some, List, [], ◌∷◌, ◌++◌, Text, codes,
  text_eq, length, is_empty, ltb, if◌then◌else◌, ℤ, pos, pos_part, ltb_ℤ, leb_ℤ, ◌-ℤ◌,
  int_to_string,
}

-- The fields of `EvidenceConfig` that the ledger reads.
pub record RecentConfig : Type 0 where
  pub encode_dedupe_ttl_ms : ℤ
  pub max_recent_encoded_refs : ℤ

-- The time of each reference, and the references from the oldest on.
pub record Ledger : Type 0 where
  pub refs : Map Text ℤ
  pub order : List Text

abbrev pub empty : Ledger
empty = record { refs = []; order = [] }

-- What names a frame in a reference's key.
pub record FrameRoute : Type 0 where
  pub pipeline_id : Text
  pub source_name : Text
  pub source_id : ℤ
  pub frame_key : Text

unfoldable pub build_recent_ref_key : FrameRoute → Text → Text
build_recent_ref_key r ref =
    r.pipeline_id
    ++ (codes "|"
        ++ (r.source_name
            ++ (codes "|"
                ++ (int_to_string r.source_id
                    ++ (codes "|" ++ (r.frame_key ++ (codes "|" ++ ref)))))))

unfoldable pub is_stale : RecentConfig → ℤ → ℤ → Bool
is_stale g now encoded_at_ms = ltb_ℤ g.encode_dedupe_ttl_ms (now -ℤ encoded_at_ms)

unfoldable pub is_crowded : RecentConfig → Map Text ℤ → Bool
is_crowded g refs =
    ltb_ℤ (pos 0) g.max_recent_encoded_refs
    && ltb (pos_part g.max_recent_encoded_refs) (length refs)

-- The loop of `prune_recently_encoded_locked`.
unfoldable pub prune_refs : RecentConfig → ℤ → Map Text ℤ → List Text → Ledger
prune_refs g now refs [] = record { refs = refs; order = [] }
prune_refs g now refs (k ∷ ks) = elim (find k refs) [
  | none ↦ prune_refs g now refs ks
  | some encoded_at_ms ↦ elim (is_stale g now encoded_at_ms || is_crowded g refs) [
    | true ↦ prune_refs g now (erase k refs) ks
    | false ↦ record { refs = refs; order = k ∷ ks }
  ]
]

unfoldable pub prune_recently_encoded_locked : RecentConfig → Ledger → ℤ → Ledger
prune_recently_encoded_locked g l now = prune_refs g now l.refs l.order

-- Whether the ledger keeps anything for the reference at all.
abbrev pub is_unkept : RecentConfig → Text → Bool
is_unkept g ref = is_empty ref || leb_ℤ g.encode_dedupe_ttl_ms (pos 0)

abbrev pub is_recent : RecentConfig → ℤ → Option ℤ → Bool
is_recent g now none = false
is_recent g now (some encoded_at_ms) = leb_ℤ (now -ℤ encoded_at_ms) g.encode_dedupe_ttl_ms

unfoldable pub was_recently_encoded : RecentConfig → Ledger → FrameRoute → Text → ℤ → Ledger × Bool
was_recently_encoded g l r ref now =
    let l' = prune_recently_encoded_locked g l now in
    if is_unkept g ref
    then (l, false)
    else (l', is_recent g now (find (build_recent_ref_key r ref) l'.refs))

-- `emplace`, and the new time where the key was there.
unfoldable pub put_ref : Ledger → Text → ℤ → Ledger
put_ref l k now = record {
  refs = insert k now l.refs;
  order = elim (find k l.refs) [ none ↦ l.order ++ k ∷ [] | some at ↦ l.order ];
}

unfoldable pub mark_recently_encoded : RecentConfig → Ledger → FrameRoute → Text → ℤ → Ledger
mark_recently_encoded g l r ref now =
    if is_unkept g ref
    then l
    else prune_recently_encoded_locked g
        (put_ref (prune_recently_encoded_locked g l now) (build_recent_ref_key r ref) now) now
