-- ===== src/Cc/Pacing/Bucket.antt =====
-- The leaky bucket of the pacing: what is sent when the pacing allows it stays within what the
-- bucket held at first and what the time since then has filled in.
use fair_queuing_aware_conge.Common.{
  ℕ, ◌+◌, ◌-◌, ◌*◌, ◌^◌, ◌≤◌, ◌<◌, ◌≡◌, refl, ap, ◌∙◌, false, List, [], ◌∷◌, arith, All, ltb,
  if◌then◌else◌, Bool-cases, inl, inr, sub64, min, ltb→lt,
}
use fair_queuing_aware_conge.Common.Int.{ℤ, pos_part, neg_part, ltb_ℤ, pos, negsuc, ◌-ℤ◌}
use fair_queuing_aware_conge.Cc.Path.{PathState}
use fair_queuing_aware_conge.Cc.Pacing.{
  raise_debt, add_nanosec, min_ℤ, update_pacing_bucket, is_sending_authorized_by_pacing,
  update_pacing_after_send,
}

-- The bucket is neither in debt nor above its capacity, and no sum leaves the range of int64_t.
pub record IsPaced (p : PathState) : Type 0 where
  pub no_debt : neg_part p.pacing_bucket_nanosec ≡ 0
  pub within : pos_part p.pacing_bucket_nanosec ≤ pos_part p.pacing_bucket_max
  pub sound : neg_part p.pacing_bucket_max ≡ 0
  pub capacity : pos_part p.pacing_bucket_max < 2 ^ 61
  pub packet_time : neg_part p.pacing_packet_time_nanosec ≡ 0
  pub clock : p.pacing_evaluation_time < 2 ^ 50

-- One call fills in what the time gives at most.
pub record IsFilled (p q : PathState) : Type 0 where
  pub paced : IsPaced q
  pub grows : p.pacing_evaluation_time ≤ q.pacing_evaluation_time
  pub filled :
      pos_part q.pacing_bucket_nanosec
      ≤ pos_part p.pacing_bucket_nanosec
        + 1000 * (q.pacing_evaluation_time - p.pacing_evaluation_time)
  pub kept : pos_part p.pacing_bucket_nanosec ≤ pos_part q.pacing_bucket_nanosec
  pub same_time : q.pacing_packet_time_nanosec ≡ p.pacing_packet_time_nanosec

pub raise_debt_none :
    (bucket packet_time : ℤ)
    → neg_part bucket ≡ 0
    → neg_part packet_time ≡ 0
    → raise_debt bucket packet_time ≡ bucket
unfolding raise_debt
raise_debt_none (pos b) (pos t) hb ht = ground arith
raise_debt_none (pos b) (negsuc t) hb ht = absurd (omega arith)
raise_debt_none (negsuc b) t hb ht = absurd (omega arith)

pub add_nanosec-pos :
    (bucket : ℤ) (microsec : ℕ)
    → neg_part bucket ≡ 0
    → pos_part bucket < 2 ^ 61
    → microsec < 2 ^ 50
    → add_nanosec bucket microsec ≡ pos (pos_part bucket + microsec * 1000)
unfolding add_nanosec
add_nanosec-pos (pos b) microsec hb small t = ground arith
add_nanosec-pos (negsuc b) microsec hb small t = absurd (omega arith)

pub min_ℤ-parts :
    (b : ℕ) (cap : ℤ)
    → (neg_part cap ≡ 0)
    → (neg_part (min_ℤ (pos b) cap) ≡ 0) × (pos_part (min_ℤ (pos b) cap) ≡ min b (pos_part cap))
min_ℤ-parts b (pos c) h = ground arith
min_ℤ-parts b (negsuc c) h = absurd (omega arith)

pub elapsed : (eval now : ℕ) → eval < now → now < 2 ^ 50 → sub64 now eval ≡ now - eval
elapsed eval now h t = omega arith

pub update_pacing_bucket-IsFilled :
    (p : PathState) (now : ℕ) → IsPaced p → now < 2 ^ 50 → IsFilled p (update_pacing_bucket p now)
unfolding update_pacing_bucket
update_pacing_bucket-IsFilled p now h t =
    let calm =
      raise_debt_none p.pacing_bucket_nanosec p.pacing_packet_time_nanosec h.no_debt
        h.packet_time in
    elim (Bool-cases (ltb p.pacing_evaluation_time now)) [
      | inl later ↦
          let gone = elapsed p.pacing_evaluation_time now (ltb→lt _ _ later) t in
          let sum =
            add_nanosec-pos p.pacing_bucket_nanosec (now - p.pacing_evaluation_time) h.no_debt
              (omega arith) (omega arith) in
          rw (later, calm, gone, sum)
            (ground (
              arith,
              min_ℤ-parts
                  (pos_part p.pacing_bucket_nanosec + (now - p.pacing_evaluation_time) * 1000)
                  p.pacing_bucket_max h.sound,
            ))
      | inr same ↦ rw (same, calm) (ground arith)
    ]

-- A path that tries to send at the given times, as the sender does: a packet goes out whenever the
-- pacing authorizes it, and the bucket is updated after it. The result counts the packets.
unfoldable pub send_at : PathState → ℕ → PathState × ℕ
send_at p now =
    let (q, authorized, next_time) = is_sending_authorized_by_pacing false p now 0 in
    if authorized then (update_pacing_after_send q now, 1) else (q, 0)

unfoldable pub send_all : PathState → List ℕ → PathState × ℕ
send_all p [] = (p, 0)
send_all p (now ∷ times) =
    let (q, n) = send_at p now in let (r, more) = send_all q times in (r, n + more)

-- What one attempt leaves in the bucket, with the packet that it sent.
abbrev pub IsWithin : PathState → PathState → ℕ → Type 0
IsWithin p q sent =
    IsPaced q
    × (p.pacing_evaluation_time ≤ q.pacing_evaluation_time)
    × (q.pacing_packet_time_nanosec ≡ p.pacing_packet_time_nanosec)
    × (sent * pos_part p.pacing_packet_time_nanosec + pos_part q.pacing_bucket_nanosec
        ≤ pos_part p.pacing_bucket_nanosec
          + 1000 * (q.pacing_evaluation_time - p.pacing_evaluation_time))

sub-parts :
    (a t : ℤ)
    → neg_part a ≡ 0
    → neg_part t ≡ 0
    → pos_part t ≤ pos_part a
    → (neg_part (a -ℤ t) ≡ 0) × (pos_part (a -ℤ t) + pos_part t ≡ pos_part a)
unfolding ◌-ℤ◌
sub-parts a t ha ht le = ground arith

-- The packet leaves the bucket that was filled twice, the second time with no time passed.
take_packet-IsWithin :
    (p q r : PathState)
    → IsFilled p q
    → IsFilled q r
    → pos_part q.pacing_packet_time_nanosec ≤ pos_part q.pacing_bucket_nanosec
    → IsWithin p
        (record r {
          pacing_bucket_nanosec = r.pacing_bucket_nanosec -ℤ r.pacing_packet_time_nanosec;
        })
        1
take_packet-IsWithin p q r f g enough =
    let same : pos_part r.pacing_packet_time_nanosec ≡ pos_part p.pacing_packet_time_nanosec =
      ap pos_part (g.same_time ∙ f.same_time) in
    let same_q : pos_part r.pacing_packet_time_nanosec ≡ pos_part q.pacing_packet_time_nanosec =
      ap pos_part g.same_time in
    let (sign, left) =
      sub-parts r.pacing_bucket_nanosec r.pacing_packet_time_nanosec g.paced.no_debt
        g.paced.packet_time (omega arith) in
    (
      record {
        no_debt = sign;
        within = omega arith;
        sound = g.paced.sound;
        capacity = g.paced.capacity;
        packet_time = g.paced.packet_time;
        clock = g.paced.clock;
      },
      omega arith,
      g.same_time ∙ f.same_time,
      omega arith,
    )

send_at-IsWithin :
    (p : PathState) (now : ℕ)
    → IsPaced p
    → now < 2 ^ 50
    → IsWithin p (send_at p now).0 (send_at p now).1
unfolding send_at is_sending_authorized_by_pacing update_pacing_after_send
send_at-IsWithin p now h t =
    let q = update_pacing_bucket p now in
    let f = update_pacing_bucket-IsFilled p now h t in
    elim (Bool-cases (ltb_ℤ q.pacing_bucket_nanosec q.pacing_packet_time_nanosec)) [
      | inl short ↦ rw short (f.paced, f.grows, f.same_time, omega (arith, f.filled))
      | inr enough ↦ rw enough (
          take_packet-IsWithin p q (update_pacing_bucket q now) f
            (update_pacing_bucket-IsFilled q now f.paced t) (ground (arith, enough)))
    ]

-- From a path whose bucket is neither in debt nor above its capacity, with a capacity below 2 ^ 61
-- nanoseconds, and over any sequence of attempts at times below 2 ^ 50 microseconds: the transmission
-- times of the packets that were sent and what is left in the bucket make up what the bucket held at
-- first and 1000 nanoseconds for each microsecond that passed, at most; and the bucket is then in
-- such a state again.
pub send_all-IsWithin :
    (times : List ℕ) (p : PathState)
    → IsPaced p
    → All (λ now. now < 2 ^ 50) times
    → IsWithin p (send_all p times).0 (send_all p times).1
unfolding send_all
send_all-IsWithin [] p h t = (h, omega arith, refl, omega arith)
send_all-IsWithin (now ∷ times) p h (t, ts) =
    let (paced, grows, same, bound) = send_at-IsWithin p now h t in
    let (paced', grows', same', bound') = send_all-IsWithin times (send_at p now).0 paced ts in
    (
      paced',
      omega arith,
      same' ∙ same,
      omega (arith, ap (λ (t : ℤ). (send_all (send_at p now).0 times).1 * pos_part t) same),
    )
