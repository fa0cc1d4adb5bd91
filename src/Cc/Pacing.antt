-- ===== src/Cc/Pacing.antt =====
-- Pacing (picoquic/sender.c, lines 804 to 974): the leaky bucket that spaces the packets, and its
-- parameters, which follow the congestion window.
pub mod Bucket
pub mod Rate
pub mod Wake
mod Examples
use fair_queuing_aware_conge.Common.{
  ℕ, ◌+◌, ◌*◌, ◌/◌, ◌^◌, ◌%◌, Bool, true, false, not, ◌&&◌, ◌||◌, ◌∷◌, ltb, leb, ◌==◌,
  if◌then◌else◌, add64, sub64, mul64,
}
use fair_queuing_aware_conge.Common.Int.{
  ℤ, pos, negsuc, ltb_ℤ, leb_ℤ, ◌-ℤ◌, ◌*ℤ◌, to_int64, of_int64, pos_part, neg_part, sub_ℕ,
}
use fair_queuing_aware_conge.Cc.{Doubles}
use fair_queuing_aware_conge.Cc.Path.{PathState, Cnx}

abbrev pub algo_number_tonopah : ℕ
algo_number_tonopah = 6

abbrev pub max_bandwidth_time_interval_max : ℕ
max_bandwidth_time_interval_max = 15000

-- A debt of more than one packet is written down to one.
pub raise_debt : ℤ → ℤ → ℤ
unfolding ◌-ℤ◌
raise_debt bucket packet_time =
    if ltb_ℤ bucket (pos 0 -ℤ packet_time) then pos 0 -ℤ packet_time else bucket

-- The sum of an int64_t and a uint64_t, as it is stored in an int64_t.
pub add_nanosec : ℤ → ℕ → ℤ
add_nanosec bucket microsec = to_int64 (add64 (of_int64 bucket) (mul64 microsec 1000))

abbrev min_ℤ : ℤ → ℤ → ℤ
min_ℤ a cap = if ltb_ℤ cap a then cap else a

-- picoquic_update_pacing_bucket
pub update_pacing_bucket : PathState → ℕ → PathState
update_pacing_bucket path_x current_time =
    let bucket = raise_debt path_x.pacing_bucket_nanosec path_x.pacing_packet_time_nanosec in
    if ltb path_x.pacing_evaluation_time current_time
    then record path_x {
      pacing_evaluation_time = current_time;
      pacing_bucket_nanosec =
          min_ℤ (add_nanosec bucket (sub64 current_time path_x.pacing_evaluation_time))
            path_x.pacing_bucket_max;
    }
    else record path_x { pacing_bucket_nanosec = bucket }

-- C's division of an int64_t by 1000, which rounds towards zero.
div_1000 : ℤ → ℤ
div_1000 a = if ltb_ℤ a (pos 0) then sub_ℕ 0 (neg_part a / 1000) else pos (pos_part a / 1000)

-- How much the bucket lacks; in packet train mode it waits for ten packets or a full bucket.
bucket_required : Bool → PathState → ℤ
unfolding ◌-ℤ◌ ◌*ℤ◌
bucket_required packet_train_mode path_x =
    if packet_train_mode
    then (let ten = pos 10 *ℤ path_x.pacing_packet_time_nanosec in
        (if ltb_ℤ ten path_x.pacing_bucket_max then ten else path_x.pacing_bucket_max)
        -ℤ path_x.pacing_bucket_nanosec)
    else path_x.pacing_packet_time_nanosec -ℤ path_x.pacing_bucket_nanosec

-- picoquic_is_sending_authorized_by_pacing: the path, the result, and `*next_time`.
pub is_sending_authorized_by_pacing : Bool → PathState → ℕ → ℕ → PathState × Bool × ℕ
unfolding update_pacing_bucket bucket_required div_1000
is_sending_authorized_by_pacing packet_train_mode path_x current_time next_time =
    let p = update_pacing_bucket path_x current_time in
    if ltb_ℤ p.pacing_bucket_nanosec p.pacing_packet_time_nanosec
    then (let next_pacing_time =
          add64 (add64 current_time 1)
            (of_int64 (div_1000 (bucket_required packet_train_mode p))) in
        (p, false, if ltb next_pacing_time next_time then next_pacing_time else next_time))
    else (p, true, next_time)

-- picoquic_update_pacing_after_send
pub update_pacing_after_send : PathState → ℕ → PathState
unfolding update_pacing_bucket ◌-ℤ◌
update_pacing_after_send path_x current_time =
    let p = update_pacing_bucket path_x current_time in
    record p { pacing_bucket_nanosec = p.pacing_bucket_nanosec -ℤ p.pacing_packet_time_nanosec }

-- The callback of `picoquic_update_pacing_rate`; `is_default` says that path_x is cnx->path[0].
signal_pacing_rate : Cnx → Bool → ℕ → Cnx
signal_pacing_rate cnx is_default rate =
    if cnx.is_pacing_update_requested
      && is_default
      && cnx.has_callback
      && ((ltb cnx.pacing_rate_signalled rate
            && leb cnx.pacing_increase_threshold (sub64 rate cnx.pacing_rate_signalled))
          || (ltb rate cnx.pacing_rate_signalled
              && ltb cnx.pacing_decrease_threshold (sub64 cnx.pacing_rate_signalled rate)))
    then record cnx { pacing_signals = rate ∷ cnx.pacing_signals; pacing_rate_signalled = rate }
    else cnx

-- The bucket after its capacity has changed: what does not fit is lost.
set_bucket_max : PathState → ℤ → PathState
set_bucket_max path_x max = record path_x {
  pacing_bucket_nanosec = min_ℤ path_x.pacing_bucket_nanosec max;
  pacing_bucket_max = max;
}

module _ (d : Doubles) where
  open d use {Double, literal, of_u64, to_u64, times, over}

  -- The nanoseconds for one packet and for one quantum, as the casts leave them.
  packet_time_of : PathState → Double → ℤ
  packet_time_of path_x rate =
      to_int64 (to_u64 (times (over (of_u64 path_x.send_mtu) rate) (literal 10000000000 1)))

  quantum_time_of : Double → ℕ → ℤ
  quantum_time_of rate quantum =
      to_int64 (to_u64 (times (over (of_u64 quantum) rate) (literal 10000000000 1)))

  set_packet_time : PathState → Double → PathState
  set_packet_time path_x rate =
      let nanosec = packet_time_of path_x rate in
      let rtt_nanosec = mul64 path_x.smoothed_rtt 1000 in
      if leb_ℤ nanosec (pos 0)
      then record path_x { pacing_packet_time_nanosec = pos 1; pacing_packet_time_microsec = 1 }
      else (let capped =
            if ltb rtt_nanosec (of_int64 nanosec) then to_int64 rtt_nanosec else nanosec in
          record path_x {
            pacing_packet_time_nanosec = capped;
            pacing_packet_time_microsec = add64 (of_int64 capped) 999 / 1000;
          })

  -- The rate, and the largest rate and quantum so far.
  record_rate : PathState → Double → ℕ → PathState
  record_rate path_x rate quantum = record path_x {
    pacing_rate = to_u64 rate;
    pacing_quantum_max =
        if ltb path_x.pacing_quantum_max quantum then quantum else path_x.pacing_quantum_max;
    pacing_rate_max =
        if ltb path_x.pacing_rate_max (to_u64 rate) then to_u64 rate else path_x.pacing_rate_max;
  }

  -- The path after `picoquic_update_pacing_rate`. The product by 16 stays in the range of int64_t.
  set_pacing_rate : PathState → Double → ℕ → PathState
  set_pacing_rate path_x rate quantum =
      let q = set_packet_time (record_rate path_x rate quantum) rate in
      let max = quantum_time_of rate quantum in
      set_bucket_max q (if leb_ℤ max (pos 0) then pos 16 *ℤ q.pacing_packet_time_nanosec else max)

  -- picoquic_update_pacing_rate
  pub update_pacing_rate : Cnx → Bool → PathState → Double → ℕ → Cnx × PathState
  update_pacing_rate cnx is_default path_x rate quantum =
      let p = set_pacing_rate path_x rate quantum in
      (signal_pacing_rate cnx is_default p.pacing_rate, p)

  -- The quantum of `picoquic_update_pacing_data`.
  pacing_quantum : PathState → Double → Bool → ℕ
  pacing_quantum path_x rate slow_start =
      let quantum = path_x.cwin / 4 in
      if ltb quantum (mul64 2 path_x.send_mtu)
      then mul64 2 path_x.send_mtu
      else (if slow_start && ltb (4 * max_bandwidth_time_interval_max) path_x.smoothed_rtt
          then (let quantum2 =
                to_u64 (
                  over (times rate (of_u64 max_bandwidth_time_interval_max))
                    (literal 10000000 1)) in
              if ltb quantum 0x8000
              then 0x8000
              else (if ltb quantum quantum2 then quantum2 else quantum))
          else (if ltb (mul64 16 path_x.send_mtu) quantum
              then mul64 16 path_x.send_mtu
              else quantum))

  -- Whether the window is too small for pacing, which Tonopah on two paths never says.
  ack_clocked : Cnx → PathState → Bool
  ack_clocked cnx path_x =
      not (leb algo_number_tonopah cnx.algorithm_number && (cnx.nb_paths == 2))
      && (ltb path_x.cwin (mul64 path_x.send_mtu 8) || leb (mul64 path_x.smoothed_rtt 1000) 1000)

  -- picoquic_update_pacing_data
  pub update_pacing_data : Cnx → Bool → PathState → Bool → Cnx × PathState
  update_pacing_data cnx is_default path_x slow_start =
      if ack_clocked cnx path_x
      then (
        cnx,
        set_bucket_max
            (record path_x { pacing_packet_time_nanosec = pos 1; pacing_packet_time_microsec = 1 })
            (to_int64 (mul64 path_x.smoothed_rtt 1000)),
      )
      else (let rate =
            times (over (of_u64 path_x.cwin) (of_u64 (mul64 path_x.smoothed_rtt 1000)))
              (literal 10000000000 1) in
          let quantum = pacing_quantum path_x rate slow_start in
          let paced = if slow_start then times rate (literal 125 2) else rate in
          update_pacing_rate cnx is_default path_x paced quantum)
