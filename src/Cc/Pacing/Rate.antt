-- ===== src/Cc/Pacing/Rate.antt =====
-- What `picoquic_update_pacing_data` leaves behind, whatever the floating point operations return.
use fair_queuing_aware_conge.Common.{
  ℕ, ◌≤◌, ◌≡◌, ◌⊎◌, inl, inr, refl, Bool-cases, Bool, ◌∷◌, arith, mul64, if◌then◌else◌,
}
use fair_queuing_aware_conge.Common.Int.{◌≤ℤ◌, ◌*ℤ◌, ℤ, pos, leb_ℤ, to_int64}
use fair_queuing_aware_conge.Cc.{Doubles}
use fair_queuing_aware_conge.Cc.Path.{PathState, Cnx}
use fair_queuing_aware_conge.Cc.Pacing.{
  quantum_time_of, ack_clocked, set_packet_time, set_bucket_max, record_rate, set_pacing_rate,
  update_pacing_rate, signal_pacing_rate, update_pacing_data,
}

set_bucket_max-frame :
    (p : PathState) (max : ℤ)
    → ((set_bucket_max p max).pacing_bucket_nanosec ≤ℤ (set_bucket_max p max).pacing_bucket_max)
      × ((set_bucket_max p max).cwin ≡ p.cwin)
      × ((set_bucket_max p max).pacing_quantum_max ≡ p.pacing_quantum_max)
      × ((set_bucket_max p max).pacing_rate ≡ p.pacing_rate)
unfolding set_bucket_max
set_bucket_max-frame p max = ground arith

nb_paths-signal_pacing_rate :
    (cnx : Cnx) (is_default : Bool) (rate : ℕ)
    → (signal_pacing_rate cnx is_default rate).nb_paths ≡ cnx.nb_paths
unfolding signal_pacing_rate
nb_paths-signal_pacing_rate cnx is_default rate = ground arith

-- What both ways of the update guarantee of the new connection and path.
pub record IsUpdated (cnx : Cnx) (p : PathState) (r : Cnx × PathState) : Type 0 where
  pub bucket : r.1.pacing_bucket_nanosec ≤ℤ r.1.pacing_bucket_max
  pub window : r.1.cwin ≡ p.cwin
  pub quantum : p.pacing_quantum_max ≤ r.1.pacing_quantum_max
  pub told :
      (r.0.pacing_signals ≡ cnx.pacing_signals)
      ⊎ (r.0.pacing_signals ≡ r.1.pacing_rate ∷ cnx.pacing_signals)

module _ (d : Doubles) where
  open d use {Double}

  set_packet_time-frame :
      (p : PathState) (rate : Double)
      → ((set_packet_time d p rate).cwin ≡ p.cwin)
        × ((set_packet_time d p rate).pacing_quantum_max ≡ p.pacing_quantum_max)
        × ((set_packet_time d p rate).pacing_rate ≡ p.pacing_rate)
  unfolding set_packet_time
  set_packet_time-frame p rate = ground arith

  record_rate-frame :
      (p : PathState) (rate : Double) (quantum : ℕ)
      → ((record_rate d p rate quantum).cwin ≡ p.cwin)
        × (quantum ≤ (record_rate d p rate quantum).pacing_quantum_max)
        × (p.pacing_quantum_max ≤ (record_rate d p rate quantum).pacing_quantum_max)
  unfolding record_rate
  record_rate-frame p rate quantum = ground arith

  set_pacing_rate-frame :
      (p : PathState) (rate : Double) (quantum : ℕ)
      → ((set_pacing_rate d p rate quantum).pacing_bucket_nanosec
          ≤ℤ (set_pacing_rate d p rate quantum).pacing_bucket_max)
        × ((set_pacing_rate d p rate quantum).cwin ≡ p.cwin)
        × (quantum ≤ (set_pacing_rate d p rate quantum).pacing_quantum_max)
        × (p.pacing_quantum_max ≤ (set_pacing_rate d p rate quantum).pacing_quantum_max)
  unfolding set_pacing_rate
  set_pacing_rate-frame p rate quantum = ground (
    arith,
    record_rate-frame p rate quantum,
    set_packet_time-frame (record_rate d p rate quantum) rate,
    set_bucket_max-frame (set_packet_time d (record_rate d p rate quantum) rate) (
        if leb_ℤ (quantum_time_of d rate quantum) (pos 0)
        then pos 16
          *ℤ (set_packet_time d (record_rate d p rate quantum) rate).pacing_packet_time_nanosec
        else quantum_time_of d rate quantum),
  )

  signal_pacing_rate-once :
      (cnx : Cnx) (is_default : Bool) (rate : ℕ)
      → ((signal_pacing_rate cnx is_default rate).pacing_signals ≡ cnx.pacing_signals)
        ⊎ ((signal_pacing_rate cnx is_default rate).pacing_signals ≡ rate ∷ cnx.pacing_signals)
  unfolding signal_pacing_rate
  signal_pacing_rate-once cnx is_default rate = ground arith

  update_pacing_rate-IsUpdated :
      (cnx : Cnx) (is_default : Bool) (p : PathState) (rate : Double) (quantum : ℕ)
      → IsUpdated cnx p (update_pacing_rate d cnx is_default p rate quantum)
  unfolding update_pacing_rate
  update_pacing_rate-IsUpdated cnx is_default p rate quantum =
      let (bucket, window, big, kept) = set_pacing_rate-frame p rate quantum in
      record {
        bucket = bucket;
        window = window;
        quantum = kept;
        told = signal_pacing_rate-once cnx is_default _;
      }

  -- After an update the bucket does not exceed its capacity, the window that the update was made
  -- for is unchanged, the largest quantum never shrinks, and the application is told of a rate at
  -- most once, namely of the new one. This holds whatever the floating point operations return.
  pub update_pacing_data-IsUpdated :
      (cnx : Cnx) (is_default : Bool) (p : PathState) (slow_start : Bool)
      → IsUpdated cnx p (update_pacing_data d cnx is_default p slow_start)
  unfolding update_pacing_data
  update_pacing_data-IsUpdated cnx is_default p slow_start =
      elim (Bool-cases (ack_clocked d cnx p)) [
        | inl small ↦ rw small (
            let (bucket, window, kept, rate) =
              set_bucket_max-frame
                (record p { pacing_packet_time_nanosec = pos 1; pacing_packet_time_microsec = 1 })
                (to_int64 (mul64 p.smoothed_rtt 1000)) in
            record { bucket = bucket; window = window; quantum = omega arith; told = inl refl })
        | inr paced ↦ rw paced (update_pacing_rate-IsUpdated cnx is_default p _ _)
      ]

  -- An update of the pacing changes nothing else of the connection: not its number of paths.
  pub nb_paths-update_pacing_data :
      (cnx : Cnx) (is_default : Bool) (p : PathState) (slow_start : Bool)
      → (update_pacing_data d cnx is_default p slow_start).0.nb_paths ≡ cnx.nb_paths
  unfolding update_pacing_data update_pacing_rate
  nb_paths-update_pacing_data cnx is_default p slow_start =
      elim (Bool-cases (ack_clocked d cnx p)) [
        | inl small ↦ rw small
        | inr paced ↦ rw paced (nb_paths-signal_pacing_rate cnx is_default _)
      ]
