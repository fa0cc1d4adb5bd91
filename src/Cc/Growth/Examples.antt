-- ===== src/Cc/Growth/Examples.antt =====
-- Runs of the growth of the window (picoquic/cc_common.c).
use fair_queuing_aware_conge.Common.{◌≡◌, refl}
use fair_queuing_aware_conge.Cc.Samples.{fractions, path}
use fair_queuing_aware_conge.Cc.Growth.{hystart_increase, cc_increased_window}

increase_run : (hystart_increase path 1000).cwin ≡ 16360
unfolding hystart_increase
increase_run = refl

short_delay_run : cc_increased_window fractions path 20000 ≡ 40000
unfolding cc_increased_window
short_delay_run = refl

-- A round trip of 250 ms
long_delay_run : cc_increased_window fractions (record path { rtt_min = 250000 }) 20000 ≡ 50000
unfolding cc_increased_window
long_delay_run = refl

-- Beyond 610 ms the window grows no further.
satellite_run : cc_increased_window fractions (record path { rtt_min = 900000 }) 20000 ≡ 122000
unfolding cc_increased_window
satellite_run = refl
