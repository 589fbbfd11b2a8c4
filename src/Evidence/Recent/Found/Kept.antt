-- ===== src/Evidence/Recent/Found/Kept.antt =====
-- A reference that was just encoded is recognised, and no run of calls breaks the ledger.
use vms_engine.Common.Map.{find}
use vms_engine.Common.{◌≡◌, Bool, false, Text, text_eq, arith, ℤ, if_keep, none-ne-some}
use vms_engine.Evidence.Recent.{
  RecentConfig, Ledger, empty, FrameRoute, build_recent_ref_key, is_crowded,
  prune_recently_encoded_locked, is_unkept, was_recently_encoded, mark_recently_encoded,
}
use vms_engine.Evidence.Recent.Tracked.{
  IsTrackedLedger, prune_refs-IsTracked, prune_refs-IsWithin, put_ref-IsTracked,
}

-- The ledger is in order: its map and its list agree, and the limit is kept.
pub record IsKept (g : RecentConfig) (l : Ledger) : Type 0 where
  pub tracked : IsTrackedLedger l
  pub within : is_crowded g l.refs ≡ false

pub empty-IsKept : (g : RecentConfig) → IsKept g empty
unfolding find is_crowded
empty-IsKept g = record {
  tracked = record {
    distinct = tt;
    listed = λ k t e. absurd (none-ne-some t e);
    present = λ k m. elim m [ ];
    apart = tt;
  };
  within = ground arith;
}

pub prune-IsKept :
    (g : RecentConfig) (l : Ledger) (now : ℤ)
    → IsTrackedLedger l
    → IsKept g (prune_recently_encoded_locked g l now)
unfolding prune_recently_encoded_locked
prune-IsKept g l now w = record {
  tracked = prune_refs-IsTracked g now l.refs l.order w;
  within = (prune_refs-IsWithin g now l.refs l.order w).uncrowded;
}

pub was_recently_encoded-IsKept :
    (g : RecentConfig) (l : Ledger) (r : FrameRoute) (ref : Text) (now : ℤ)
    → IsKept g l
    → IsKept g (was_recently_encoded g l r ref now).0
unfolding was_recently_encoded
was_recently_encoded-IsKept g l r ref now w =
    if_keep (λ (x : Ledger × Bool). IsKept g x.0) (is_unkept g ref) _ _ w
      (prune-IsKept g l now w.tracked)

pub mark_recently_encoded-IsKept :
    (g : RecentConfig) (l : Ledger) (r : FrameRoute) (ref : Text) (now : ℤ)
    → IsKept g l
    → IsKept g (mark_recently_encoded g l r ref now)
unfolding mark_recently_encoded
mark_recently_encoded-IsKept g l r ref now w = if_keep (IsKept g) (is_unkept g ref) _ _ w (
    prune-IsKept g _ now (
      put_ref-IsTracked _ (build_recent_ref_key r ref) now
        (prune-IsKept g l now w.tracked).tracked))
