-- ===== src/Domain/Reclaim.antt =====
-- internal/domain/status.go: `ReclaimStatus`.
use mathlib.Core.Bool.{Bool, true, false, ◌&&◌, ◌||◌}

pub data ReclaimStatus : Type 0 where
  reclaiming reclaimed reclaim_failed : ReclaimStatus

abbrev pub is_reclaiming : ReclaimStatus → Bool
is_reclaiming reclaiming = true
is_reclaiming _ = false

abbrev pub is_reclaimed : ReclaimStatus → Bool
is_reclaimed reclaimed = true
is_reclaimed _ = false

abbrev is_reclaim_failed : ReclaimStatus → Bool
is_reclaim_failed reclaim_failed = true
is_reclaim_failed _ = false

unfoldable pub can_transition_to : ReclaimStatus → ReclaimStatus → Bool
can_transition_to status next =
    is_reclaiming status && (is_reclaimed next || is_reclaim_failed next)
