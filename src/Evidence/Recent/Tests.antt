-- ===== src/Evidence/Recent/Tests.antt =====
-- The ledger at concrete references, and the theorems at inputs that meet their hypotheses.
use vms_engine.Common.Map.{find, insert, erase}
use vms_engine.Common.{◌≡◌, refl, false, codes, text_beq, text_eq, pos, ◌-ℤ◌, int_to_string}
use vms_engine.Evidence.Recent.{
  RecentConfig, empty, FrameRoute, build_recent_ref_key, is_stale, is_crowded, prune_refs,
  prune_recently_encoded_locked, was_recently_encoded, put_ref, mark_recently_encoded,
}

-- What a run of the ledger unfolds.
program : Unit {0}
unfolding find insert erase text_beq ◌-ℤ◌ int_to_string build_recent_ref_key is_stale is_crowded
    prune_refs prune_recently_encoded_locked was_recently_encoded put_ref mark_recently_encoded
program = tt

abbrev g : RecentConfig
g = record { encode_dedupe_ttl_ms = pos 1000; max_recent_encoded_refs = pos 1 }

abbrev route : FrameRoute
route = record {
  pipeline_id = codes "p";
  source_name = codes "cam";
  source_id = pos 0;
  frame_key = codes "f";
}

-- The limit of one reference forgets the first of two.
first_forgotten :
    (was_recently_encoded g
      (mark_recently_encoded g
        (mark_recently_encoded g empty route (codes "a.jpg") (pos 100))
        route
        (codes "b.jpg")
        (pos 100))
      route
      (codes "a.jpg")
      (pos 100)).1
    ≡ false
unfolding program
first_forgotten = refl
