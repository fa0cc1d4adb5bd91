-- ===== src/Cc/RttFilter/Examples.antt =====
-- Runs of the RTT filter, and the theorems at concrete inputs.
use fair_queuing_aware_conge.Common.{ℕ, ◌≡◌, refl, true, List, [], ◌∷◌, arith}
use fair_queuing_aware_conge.Cc.RttFilter.{
  MinMaxRtt, zero_filter, scan, filter_rtt_min_max, check_excess, hystart_test,
}
use fair_queuing_aware_conge.Cc.RttFilter.Window.{
  IsRing, window, smallest, largest, filter-extremes,
}
use fair_queuing_aware_conge.Cc.RttFilter.Hystart.{hystart_calls}

abbrev empty : MinMaxRtt (ℕ × ℕ)
empty = zero_filter (0, 1)

-- A ring that is full, with one late sample to come.
abbrev full : MinMaxRtt (ℕ × ℕ)
full = record empty {
  is_init = true;
  sample_current = 3;
  samples = 90 ∷ 80 ∷ 85 ∷ 70 ∷ 99 ∷ 88 ∷ 81 ∷ [];
}

filter-extremes_example :
    IsRing (filter_rtt_min_max full 77)
    × ((filter_rtt_min_max full 77).sample_min ≡ smallest (window (filter_rtt_min_max full 77)))
    × ((filter_rtt_min_max full 77).sample_max ≡ largest (window (filter_rtt_min_max full 77)))
filter-extremes_example = filter-extremes full 77 (refl, omega arith)

-- Every sample of this filter is far above its minimum, for the seventh time.
abbrev late : MinMaxRtt (ℕ × ℕ)
late = record empty {
  rtt_filtered_min = 100;
  nb_rtt_excess = 6;
  is_init = true;
  sample_min = 200;
  sample_max = 250;
  samples = 200 ∷ 200 ∷ 250 ∷ 240 ∷ 230 ∷ 220 ∷ 210 ∷ [];
}

abbrev one_call : List (ℕ × ℕ)
one_call = (210, 5000) ∷ []

late_leaves : (hystart_calls late one_call).1 ≡ true
unfolding hystart_calls hystart_test filter_rtt_min_max check_excess scan
late_leaves = refl

late_excess : (check_excess late).1 ≡ true
unfolding check_excess
late_excess = refl
