-- ===== src/Sacks/Horizon.antt =====
-- The horizon of a sack list (picoquic/sacks.c): old ranges are dropped, and no received number is
-- forgotten, since all numbers below the horizon count as received.
use fair_queuing_aware_conge.Common.{ℕ, ◌≤◌, ◌≡◌, true, ◌||◌, List, ltb}
use fair_queuing_aware_conge.Sacks.{SackItem}
use fair_queuing_aware_conge.Sacks.Ranges.{IsFrom, holds}

-- What the loop leaves: ranges above the new horizon, which has not moved down, and every number that
-- was held or below the horizon is so still.
record IsRaised (items : List SackItem) (horizon : ℕ) (items' : List SackItem) (horizon' : ℕ)
    : Type 0 where
  order : IsFrom horizon' items'
  higher : horizon ≤ horizon'
  kept :
      (n : ℕ) → (ltb n horizon || holds items n) ≡ true → (ltb n horizon' || holds items' n) ≡ true
