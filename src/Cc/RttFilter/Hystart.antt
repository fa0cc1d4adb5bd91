-- ===== src/Cc/RttFilter/Hystart.antt =====
-- The tests for the end of slow start: `picoquic_hystart_test` on the RTT and
-- `picoquic_hystart_loss_test` on losses.
use fair_queuing_aware_conge.Common.{
  ℕ, ◌+◌, ◌/◌, ◌≤◌, ◌<◌, ◌≡◌, refl, Bool, true, false, ◌||◌, List, [], ◌∷◌, arith, length, ltb, max,
  ◌^◌,
}
use fair_queuing_aware_conge.Cc.{Doubles, Notification, timeout}
use fair_queuing_aware_conge.Cc.RttFilter.{
  MinMaxRtt, filter_rtt_min_max, check_excess, hystart_test, hystart_loss_test,
}
use fair_queuing_aware_conge.Cc.RttFilter.Window.{IsRing, filter-extremes}

-- The filter after the calls with the given measurements and times, and whether a call said that
-- slow start ends.
module _ {D : Type 0} where
  unfoldable pub hystart_calls : MinMaxRtt D → List (ℕ × ℕ) → MinMaxRtt D × Bool
  hystart_calls f [] = (f, false)
  hystart_calls f ((rtt, time) ∷ calls) =
      let (g, said) = hystart_test f rtt time in
      let (h, later) = hystart_calls g calls in (h, said || later)

  -- The filter keeps the count, and one call raises it by one at most.
  excess-filter :
      (f : MinMaxRtt D) (rtt : ℕ) → (filter_rtt_min_max f rtt).nb_rtt_excess ≡ f.nb_rtt_excess
  unfolding filter_rtt_min_max
  excess-filter f rtt = refl

  excess-check :
      (f : MinMaxRtt D)
      → ((check_excess f).0.nb_rtt_excess ≤ f.nb_rtt_excess + 1)
        × ((check_excess f).1 ≡ true → 7 ≤ f.nb_rtt_excess + 1)
  unfolding check_excess
  excess-check f = ground arith

  -- The state that a call which takes the sample checks.
  abbrev sampled : MinMaxRtt D → ℕ → ℕ → MinMaxRtt D
  sampled f rtt time = record (filter_rtt_min_max f rtt) { last_rtt_sample_time = time }

  excess-hystart_test :
      (f : MinMaxRtt D) (rtt time : ℕ)
      → ((hystart_test f rtt time).0.nb_rtt_excess ≤ f.nb_rtt_excess + 1)
        × ((hystart_test f rtt time).1 ≡ true → 7 ≤ f.nb_rtt_excess + 1)
  unfolding hystart_test
  excess-hystart_test f rtt time =
      ground (arith, excess-filter f rtt, excess-check (sampled f rtt time))

  -- Slow start is not left on a few late samples: a call that says so, among calls that begin with
  -- a count of excesses, means that the count and the number of calls make seven.
  pub hystart_calls_needs_seven :
      (calls : List (ℕ × ℕ)) (f : MinMaxRtt D)
      → (hystart_calls f calls).1 ≡ true
      → 7 ≤ f.nb_rtt_excess + length calls
  unfolding hystart_calls
  hystart_calls_needs_seven [] f e = cc
  hystart_calls_needs_seven ((rtt, time) ∷ calls) f e = ground (
    arith,
    excess-hystart_test f rtt time,
    hystart_calls_needs_seven calls (hystart_test f rtt time).0,
  )

  IsRing-check : (f : MinMaxRtt D) → IsRing f → IsRing (check_excess f).0
  unfolding check_excess
  IsRing-check f h = ground arith

  -- The calls keep the ring of samples well formed.
  pub IsRing-hystart_test :
      (f : MinMaxRtt D) (rtt time : ℕ) → IsRing f → IsRing (hystart_test f rtt time).0
  unfolding hystart_test
  IsRing-hystart_test f rtt time h =
      ground (arith, filter-extremes f rtt h, IsRing-check (sampled f rtt time))

  -- When slow start is left, each sample of the ring is more than a quarter above the filtered
  -- minimum, which no sample before was below.
  pub check_excess-true :
      (f : MinMaxRtt D)
      → (check_excess f).1 ≡ true
      → f.sample_max < 2 ^ 62
      → ((check_excess f).0.rtt_filtered_min ≤ f.sample_max)
        × ((check_excess f).0.rtt_filtered_min + (check_excess f).0.rtt_filtered_min / 4
            < f.sample_min)
  unfolding check_excess
  check_excess-true f e h = ground arith

module _ (d : Doubles) where
  open d use {Double}

  -- The loss test counts each packet number once: a number at or below the last one that was
  -- counted changes nothing and never ends slow start, a later one is recorded, and a timeout on a
  -- later one always ends slow start.
  pub hystart_loss_test_cases :
      (f : MinMaxRtt Double) (event : Notification) (lost : ℕ)
      → ((hystart_loss_test d f event lost).0.last_lost_packet_number
          ≡ max f.last_lost_packet_number lost)
        × ((hystart_loss_test d f timeout lost).1 ≡ ltb f.last_lost_packet_number lost)
        × (hystart_loss_test d (hystart_loss_test d f event lost).0 event lost
            ≡ ((hystart_loss_test d f event lost).0, false))
  unfolding hystart_loss_test
  hystart_loss_test_cases f event lost = ground arith
