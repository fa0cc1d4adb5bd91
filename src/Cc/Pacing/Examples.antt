-- ===== src/Cc/Pacing/Examples.antt =====
-- Runs of the pacing, and the theorems at concrete inputs.
use fair_queuing_aware_conge.Cc.Pacing.Wake.{target, authorized_on_wake}
use fair_queuing_aware_conge.Common.{◌<◌, ◌≤◌, false, u64_max, ◌≡◌, refl, true, [], ◌∷◌, arith}
use fair_queuing_aware_conge.Cc.Path.{PathState}
use fair_queuing_aware_conge.Common.Int.{pos, pos_part}
use fair_queuing_aware_conge.Cc.Samples.{fractions, path, cnx}
use fair_queuing_aware_conge.Cc.Pacing.{
  update_pacing_data, is_sending_authorized_by_pacing, update_pacing_bucket,
  update_pacing_after_send, raise_debt, add_nanosec,
}
use fair_queuing_aware_conge.Cc.Pacing.Bucket.{IsWithin, send_at, send_all, send_all-IsWithin}
use fair_queuing_aware_conge.Cc.Pacing.Rate.{IsUpdated, update_pacing_data-IsUpdated}

-- Of four attempts three are authorized; half a packet time is left.
four_attempts : (send_all path (1000 ∷ 1000 ∷ 1000 ∷ 1500 ∷ [])).1 ≡ 3
unfolding send_all send_at is_sending_authorized_by_pacing update_pacing_bucket
    update_pacing_after_send raise_debt add_nanosec
four_attempts = refl

send_all-IsWithin_example :
    IsWithin path (send_all path (1000 ∷ 1500 ∷ [])).0 (send_all path (1000 ∷ 1500 ∷ [])).1
send_all-IsWithin_example =
    send_all-IsWithin (1000 ∷ 1500 ∷ []) path
      (record {
        no_debt = omega arith;
        within = omega arith;
        sound = omega arith;
        capacity = omega arith;
        packet_time = omega arith;
        clock = omega arith;
      })
      (omega arith, (omega arith, tt))

update_pacing_data-IsUpdated_example :
    IsUpdated cnx path (update_pacing_data fractions cnx true path true)
update_pacing_data-IsUpdated_example = update_pacing_data-IsUpdated fractions cnx true path true

-- The bucket holds half a packet.
abbrev drained : PathState
drained = record path { pacing_bucket_nanosec = pos 500000 }

authorized_on_wake_example :
    let (q, authorized, next_time) = is_sending_authorized_by_pacing true drained 1000 u64_max in
    (1000 < next_time)
    × (target true drained ≤ pos_part (update_pacing_bucket q next_time).pacing_bucket_nanosec)
    × ((is_sending_authorized_by_pacing false q next_time u64_max).1 ≡ true)
authorized_on_wake_example =
    authorized_on_wake true false drained 1000
      (record {
        no_debt = omega arith;
        within = omega arith;
        sound = omega arith;
        capacity = omega arith;
        packet_time = omega arith;
        clock = omega arith;
      })
      (omega arith) (omega arith) (omega arith) (omega arith)
      (unfold is_sending_authorized_by_pacing update_pacing_bucket raise_debt add_nanosec in refl)
