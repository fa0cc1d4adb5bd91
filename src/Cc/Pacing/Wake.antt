-- ===== src/Cc/Pacing/Wake.antt =====
-- The wake-up time that the pacing of picoquic/sender.c asks for, in packet train mode and outside of it.
use fair_queuing_aware_conge.Common.{
  ℕ, ◌+◌, ◌-◌, ◌*◌, ◌/◌, ◌^◌, ◌≤◌, ◌<◌, ◌≡◌, refl, ap, Bool, true, false, arith, ltb, if◌then◌else◌,
  Bool-cases, inl, inr, add64, min, ltb→lt, u64_max,
}
use fair_queuing_aware_conge.Common.Int.{
  ℤ, pos, negsuc, pos_part, neg_part, ltb_ℤ, ◌-ℤ◌, ◌*ℤ◌, of_int64,
}
use fair_queuing_aware_conge.Cc.Path.{PathState}
use fair_queuing_aware_conge.Cc.Pacing.{
  update_pacing_bucket, bucket_required, div_1000, is_sending_authorized_by_pacing,
}
use fair_queuing_aware_conge.Cc.Pacing.Bucket.{
  IsPaced, update_pacing_bucket-IsFilled, raise_debt_none, add_nanosec-pos, min_ℤ-parts, elapsed,
}

-- What a division by 1000 makes of the difference of two numbers.
thousandth : (x y : ℕ) → y ≤ x → x < 2 ^ 61 → of_int64 (div_1000 (pos x -ℤ pos y)) ≡ (x - y) / 1000
unfolding div_1000 ◌-ℤ◌
thousandth x y le small = ground arith

pos_of : (a : ℤ) → neg_part a ≡ 0 → a ≡ pos (pos_part a)
pos_of (pos n) h = refl
pos_of (negsuc n) h = absurd (omega arith)

ten_times : (t : ℕ) → pos 10 *ℤ pos t ≡ pos (10 * t)
unfolding ◌*ℤ◌
ten_times t = ground arith

smaller : (x m : ℕ) → (if ltb_ℤ (pos x) (pos m) then pos x else pos m) ≡ pos (min x m)
smaller x m = ground arith

-- What the bucket waits for: a packet, or in packet train mode ten packets or a full bucket.
abbrev pub target : Bool → PathState → ℕ
target train q =
    if train
    then min (10 * pos_part q.pacing_packet_time_nanosec) (pos_part q.pacing_bucket_max)
    else pos_part q.pacing_packet_time_nanosec

-- What the bucket lacks, in whole microseconds and rounded down.
wait_time :
    (train : Bool) (q : PathState)
    → neg_part q.pacing_bucket_nanosec ≡ 0
    → neg_part q.pacing_packet_time_nanosec ≡ 0
    → neg_part q.pacing_bucket_max ≡ 0
    → pos_part q.pacing_bucket_nanosec ≤ pos_part q.pacing_packet_time_nanosec
    → pos_part q.pacing_packet_time_nanosec ≤ pos_part q.pacing_bucket_max
    → pos_part q.pacing_packet_time_nanosec < 2 ^ 50
    → of_int64 (div_1000 (bucket_required train q))
      ≡ (target train q - pos_part q.pacing_bucket_nanosec) / 1000
unfolding bucket_required
wait_time false q hb ht hm short room small =
    let b = pos_part q.pacing_bucket_nanosec in
    let x = pos_part q.pacing_packet_time_nanosec in
    rw (pos_of q.pacing_bucket_nanosec hb, pos_of q.pacing_packet_time_nanosec ht)
      (thousandth x b short (omega arith))
wait_time true q hb ht hm short room small =
    let b = pos_part q.pacing_bucket_nanosec in
    let x = pos_part q.pacing_packet_time_nanosec in
    let m = pos_part q.pacing_bucket_max in
    rw
      (
        pos_of q.pacing_bucket_nanosec hb,
        pos_of q.pacing_packet_time_nanosec ht,
        pos_of q.pacing_bucket_max hm,
        ten_times x,
        smaller (10 * x) m,
      )
      (thousandth (min (10 * x) m) b (omega arith) (omega arith))

-- The bucket after an update is full, or holds what the time has filled in.
record IsRefilled (p q : PathState) (now : ℕ) : Type 0 where
  content :
      pos_part q.pacing_bucket_nanosec
      ≡ min
          (pos_part p.pacing_bucket_nanosec + (now - p.pacing_evaluation_time) * 1000)
          (pos_part p.pacing_bucket_max)
  evaluated : q.pacing_evaluation_time ≡ now
  capacity : q.pacing_bucket_max ≡ p.pacing_bucket_max

update_pacing_bucket-IsRefilled :
    (p : PathState) (now : ℕ)
    → IsPaced p
    → p.pacing_evaluation_time ≤ now
    → now < 2 ^ 50
    → IsRefilled p (update_pacing_bucket p now) now
unfolding update_pacing_bucket
update_pacing_bucket-IsRefilled p now h le t =
    let calm =
      raise_debt_none p.pacing_bucket_nanosec p.pacing_packet_time_nanosec h.no_debt
        h.packet_time in
    elim (Bool-cases (ltb p.pacing_evaluation_time now)) [
      | inl later ↦
          let gone = elapsed p.pacing_evaluation_time now (ltb→lt _ _ later) t in
          let sum =
            add_nanosec-pos p.pacing_bucket_nanosec (now - p.pacing_evaluation_time) h.no_debt
              (omega arith) (omega arith) in
          rw (later, calm, gone, sum)
            (ground (
              arith,
              min_ℤ-parts
                  (pos_part p.pacing_bucket_nanosec + (now - p.pacing_evaluation_time) * 1000)
                  p.pacing_bucket_max h.sound,
            ))
      | inr same ↦ rw (same, calm) (ground arith)
    ]

-- The time that is asked for leaves no range, and comes before the one that stands for never.
next_time_of :
    (now lack : ℕ)
    → now < 2 ^ 49
    → lack < 2 ^ 54
    → (if ltb (add64 (add64 now 1) (lack / 1000)) u64_max
        then add64 (add64 now 1) (lack / 1000)
        else u64_max)
      ≡ now + 1 + lack / 1000
next_time_of now lack t small = ground arith

target_bounds :
    (train : Bool) (q : PathState)
    → pos_part q.pacing_packet_time_nanosec ≤ pos_part q.pacing_bucket_max
    → (pos_part q.pacing_packet_time_nanosec ≤ target train q)
      × (target train q ≤ pos_part q.pacing_bucket_max)
      × (target train q ≤ 10 * pos_part q.pacing_packet_time_nanosec)
target_bounds true q room = (omega arith, omega arith, omega arith)
target_bounds false q room = (omega arith, omega arith, omega arith)

target-same :
    (train : Bool) (p q : PathState)
    → pos_part q.pacing_packet_time_nanosec ≡ pos_part p.pacing_packet_time_nanosec
    → pos_part q.pacing_bucket_max ≡ pos_part p.pacing_bucket_max
    → target train q ≡ target train p
target-same train p q same full = rw (same, full) refl

-- What a refused attempt returns.
refused :
    (train : Bool) (p : PathState) (now : ℕ)
    → IsPaced (update_pacing_bucket p now)
    → now < 2 ^ 49
    → pos_part (update_pacing_bucket p now).pacing_packet_time_nanosec < 2 ^ 50
    → pos_part (update_pacing_bucket p now).pacing_packet_time_nanosec
      ≤ pos_part (update_pacing_bucket p now).pacing_bucket_max
    → let q = update_pacing_bucket p now in
      ltb_ℤ q.pacing_bucket_nanosec q.pacing_packet_time_nanosec ≡ true
      → is_sending_authorized_by_pacing train p now u64_max
        ≡ (q, false, now + 1 + (target train q - pos_part q.pacing_bucket_nanosec) / 1000)
unfolding is_sending_authorized_by_pacing
refused train p now h t small room short =
    let q = update_pacing_bucket p now in
    let below : pos_part q.pacing_bucket_nanosec ≤ pos_part q.pacing_packet_time_nanosec =
      ground (arith, short, h.packet_time, h.no_debt) in
    let wait = wait_time train q h.no_debt h.packet_time h.sound below room small in
    let bounds = target_bounds train q room in
    rw (short, wait)
      (ap (λ (time : ℕ). (q, false, time))
        (next_time_of now (target train q - pos_part q.pacing_bucket_nanosec) t
          (omega (arith, bounds.2))))

-- An attempt with enough in the bucket.
granted :
    (train : Bool) (p : PathState) (now : ℕ)
    → let q = update_pacing_bucket p now in
      neg_part q.pacing_bucket_nanosec ≡ 0
      → neg_part q.pacing_packet_time_nanosec ≡ 0
      → pos_part q.pacing_packet_time_nanosec ≤ pos_part q.pacing_bucket_nanosec
      → (is_sending_authorized_by_pacing train p now u64_max).1 ≡ true
unfolding is_sending_authorized_by_pacing
granted train p now no_debt sign enough =
    let q = update_pacing_bucket p now in
    let long : ltb_ℤ q.pacing_bucket_nanosec q.pacing_packet_time_nanosec ≡ false = ground arith in
    rw long refl

-- In packet train mode and outside of it: if the pacing refuses a packet of a path whose bucket is not in
-- debt and was last evaluated at that time or before, it asks for a later time, at which the bucket holds
-- what it waits for (a packet, or in packet train mode the smaller of ten packets and a full bucket), and
-- at which it authorizes the packet in either mode. The bucket must be able to hold one packet, no other
-- wake-up may be scheduled, and the times must stay in their ranges.
pub authorized_on_wake :
    (train later_train : Bool) (p : PathState) (now : ℕ)
    → IsPaced p
    → p.pacing_evaluation_time ≤ now
    → now < 2 ^ 49
    → pos_part p.pacing_packet_time_nanosec ≤ pos_part p.pacing_bucket_max
    → pos_part p.pacing_packet_time_nanosec < 2 ^ 50
    → (is_sending_authorized_by_pacing train p now u64_max).1 ≡ false
    → let (q, authorized, next_time) = is_sending_authorized_by_pacing train p now u64_max in
      (now < next_time)
      × (target train p ≤ pos_part (update_pacing_bucket q next_time).pacing_bucket_nanosec)
      × ((is_sending_authorized_by_pacing later_train q next_time u64_max).1 ≡ true)
authorized_on_wake train later_train p now h le t room small rejected =
    let q = update_pacing_bucket p now in
    let f = update_pacing_bucket-IsFilled p now h (omega arith) in
    let r = update_pacing_bucket-IsRefilled p now h le (omega arith) in
    let same = ap pos_part f.same_time in
    let full = ap pos_part r.capacity in
    elim (Bool-cases (ltb_ℤ q.pacing_bucket_nanosec q.pacing_packet_time_nanosec)) [
      | inl short ↦
          let room' : pos_part q.pacing_packet_time_nanosec ≤ pos_part q.pacing_bucket_max =
            omega arith in
          let e = refused train p now f.paced t (omega arith) room' short in
          let wake = now + 1 + (target train q - pos_part q.pacing_bucket_nanosec) / 1000 in
          let bounds = target_bounds train q room' in
          let soon : wake < 2 ^ 50 = omega (arith, bounds.2) in
          let g = update_pacing_bucket-IsFilled q wake f.paced soon in
          let r' =
            update_pacing_bucket-IsRefilled q wake f.paced (omega (arith, r.evaluated)) soon in
          let same' = ap pos_part g.same_time in
          let goal : target train q ≤ pos_part (update_pacing_bucket q wake).pacing_bucket_nanosec =
            omega (arith, bounds.1, r.evaluated, r'.content) in
          rw e (
            omega arith,
            omega (arith, goal, target-same train p q same full),
            granted later_train q wake g.paced.no_debt g.paced.packet_time
                (omega (arith, bounds.0, goal)),
          )
      | inr enough ↦
          let yes =
            granted train p now f.paced.no_debt f.paced.packet_time (ground (arith, enough)) in
          cc
    ]
