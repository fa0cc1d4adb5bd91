-- ===== src/PacketNumber/Held.antt =====
-- What the arrival of one packet (picoquic/packet.c) does to the numbers that the sack list holds.
use fair_queuing_aware_conge.Common.{
  ℕ, ◌^◌, ◌<◌, ◌≤◌, ◌≡◌, refl, ◌∙◌, ap, inl, inr, Bool, true, false, not, ◌&&◌, ◌||◌, List, [], ◌∷◌,
  Option, none, some, if◌then◌else◌, ◌==◌, arith, Bool-cases, u64_max,
}
use fair_queuing_aware_conge.Common.Int.{pos, ltb_ℤ}
use fair_queuing_aware_conge.Sacks.{SackItem, SackList, Splay, find_range_below_number}
use fair_queuing_aware_conge.Sacks.Operations.{is_pn_already_received, update_sack_list}
use fair_queuing_aware_conge.Sacks.Acks.{
  AckContext, last_number, record_pn_received, process_ack_of_ack_range, process_at, forget,
  delete_item,
}
use fair_queuing_aware_conge.Sacks.Ranges.{IsFrom, holds, within}
use fair_queuing_aware_conge.Sacks.Received.{is_pn_already_received-holds}
use fair_queuing_aware_conge.Sacks.Update.{update_sack_list-IsUpdated}
use fair_queuing_aware_conge.Sacks.AckOfAck.{process_ack_of_ack_range-IsTrimmed}
use fair_queuing_aware_conge.PacketNumber.Window.{packet_number64-low_bytes}
use fair_queuing_aware_conge.PacketNumber.Receive.{
  new_packet, duplicate, stateless_reset, aead_not_ready, aead_check, is_new, header_pn64,
  verdict_on, process_acked_ranges, receive_packet,
}
use fair_queuing_aware_conge.PacketNumber.Packets.{
  Packet, arrival, AreRanges, IsRegular, is_read, brings, in_ranges, outcome,
}

horizon_delay-process_at :
    (s : SackList) (front : List SackItem) (o : Option SackItem) (back : List SackItem) (lo hi : ℕ)
    → (process_at s front o back lo hi).horizon_delay ≡ s.horizon_delay
unfolding process_at forget delete_item
horizon_delay-process_at s front none back lo hi = refl
horizon_delay-process_at s front (some x) [] lo hi =
    elim (Bool-cases (x.start_of_sack_range == lo)) [
      | inl same ↦ rw same refl
      | inr other ↦ rw other refl
    ]
horizon_delay-process_at s front (some x) (next ∷ back) lo hi =
    elim (Bool-cases ((x.start_of_sack_range == lo) && (x.end_of_sack_range == hi))) [
      | inr other ↦ rw other refl
      | inl same ↦ elim (Bool-cases (ltb_ℤ (pos 0) s.horizon_delay)) [
        | inl on ↦ rw (same, on) refl
        | inr off ↦ rw (same, off) refl
      ]
    ]

failed_not_new :
    (secret ready : Bool)
    → is_new (if secret then stateless_reset else (if ready then aead_check else aead_not_ready))
      ≡ false
unfolding is_new
failed_not_new true ready = refl
failed_not_new false true = refl
failed_not_new false false = refl

is_new-duplicate : is_new duplicate ≡ false
unfolding is_new
is_new-duplicate = refl

is_new-new_packet : is_new new_packet ≡ true
unfolding is_new
is_new-new_packet = refl

-- The list has its ranges in order and no horizon, and holds a set of numbers that lies between two.
pub record IsHeld (s : SackList) (must may : ℕ → Bool) : Type 0 where
  pub order : IsFrom 0 s.items
  pub off : ltb_ℤ (pos 0) s.horizon_delay ≡ false
  pub complete : (n : ℕ) → must n ≡ true → holds s.items n ≡ true
  pub sound : (n : ℕ) → holds s.items n ≡ true → may n ≡ true

pub IsHeld-weaken :
    (s : SackList) (must must' may may' : ℕ → Bool)
    → ((n : ℕ) → must' n ≡ true → must n ≡ true)
    → ((n : ℕ) → may n ≡ true → may' n ≡ true)
    → IsHeld s must may
    → IsHeld s must' may'
IsHeld-weaken s must must' may may' fewer more h = record {
  order = h.order;
  off = h.off;
  complete = λ n k. h.complete n (fewer n k);
  sound = λ n k. more n (h.sound n k);
}

module _ (t : Splay) where
  regular-found :
      (s : SackList) (p : Packet)
      → IsRegular s p
      → header_pn64 t s (arrival p) ≡ (if p.is_key_ready then p.number else u64_max)
  unfolding header_pn64
  regular-found s p h =
      rw
        (packet_number64-low_bytes p.pn_length (last_number s.items) p.number h.some_bytes
          h.few_bytes h.next_small h.small h.not_far_below h.not_far_above)
        refl

  received-holds :
      (s : SackList) (must may : ℕ → Bool) (n : ℕ)
      → IsHeld s must may
      → n < 2 ^ 62
      → is_pn_already_received t s n ≡ holds s.items n
  received-holds s must may n h small =
      is_pn_already_received-holds t s 0 n h.order small ∙ rw (h.off) refl

  -- What the verdict on a regular packet is.
  pub verdict_on-regular :
      (s : SackList) (must may : ℕ → Bool) (p : Packet)
      → IsHeld s must may
      → IsRegular s p
      → verdict_on t s (arrival p) ≡ outcome p (holds s.items p.number)
  unfolding verdict_on
  verdict_on-regular s must may p h regular =
      rw (regular-found s p regular) (elim (Bool-cases p.is_key_ready) [
        | inr not_ready ↦ rw not_ready refl
        | inl ready ↦ rw (ready, received-holds s must may p.number h regular.small) refl
      ])

  -- An acknowledged range, and several.
  acked-IsHeld :
      (s : SackList) (must may : ℕ → Bool) (lo hi : ℕ)
      → IsHeld s must may
      → lo ≤ hi
      → hi < 2 ^ 62
      → IsHeld (process_ack_of_ack_range t s lo hi) (λ n. must n && not (within lo hi n)) may
  unfolding process_ack_of_ack_range
  acked-IsHeld s must may lo hi h le small =
      let r = process_ack_of_ack_range-IsTrimmed t s 0 lo hi h.order le small in
      let p = find_range_below_number t s lo in
      record {
        order = r.order 0 h.order;
        off = rw (horizon_delay-process_at s p.front p.node p.back lo hi) (h.off);
        complete = λ n k. r.others n (h.complete n (ground (arith, k))) (ground (arith, k));
        sound = λ n k. h.sound n (r.nothing_new n k);
      }

  trimmed-IsHeld :
      (s : SackList) (must may : ℕ → Bool) (ranges : List (ℕ × ℕ))
      → IsHeld s must may
      → AreRanges ranges
      → IsHeld (process_acked_ranges t s ranges) (λ n. must n && not (in_ranges ranges n)) may
  unfolding process_acked_ranges
  trimmed-IsHeld s must may [] h ranged =
      IsHeld-weaken s must _ may may (λ n k. ground (arith, k)) (λ n k. k) h
  trimmed-IsHeld s must may ((lo, hi) ∷ ranges) h (le, small, ranged) =
      let next =
        trimmed-IsHeld (process_ack_of_ack_range t s lo hi) _ may ranges
          (acked-IsHeld s must may lo hi h le small) ranged in
      IsHeld-weaken _ _ _ may may (λ n k. ground (arith, k)) (λ n k. k) next

  -- A number that is recorded, and one that was there before.
  recorded-IsHeld :
      (s : SackList) (must may : ℕ → Bool) (number now : ℕ)
      → IsHeld s must may
      → number < 2 ^ 62
      → IsHeld
          (update_sack_list t true s number number now).0
          (λ n. (n == number) || must n)
          (λ n. (n == number) || may n)
  recorded-IsHeld s must may number now h small =
      let u = update_sack_list-IsUpdated t s number number now (omega arith) small h.order h.off in
      record {
        order = u.ranges 0 (omega arith) h.order;
        off = rw u.same_delay (h.off);
        complete = λ n k. ground (arith, u.members n, h.complete n, k);
        sound = λ n k. ground (arith, u.members n, h.sound n, k);
      }

  repeated-IsHeld :
      (s : SackList) (must may : ℕ → Bool) (number : ℕ) (taken : Bool)
      → IsHeld s must may
      → holds s.items number ≡ true
      → IsHeld s (λ n. (taken && (n == number)) || must n) (λ n. (taken && (n == number)) || may n)
  repeated-IsHeld s must may number taken h seen = record {
    order = h.order;
    off = h.off;
    complete = λ n k. elim (Bool-cases (n == number)) [
      | inl here ↦ ap (holds s.items) (let e : n ≡ number = ground (arith, here) in e) ∙ seen
      | inr other ↦ h.complete n (ground (arith, other, k))
    ];
    sound = λ n k. ground (arith, h.sound n, k);
  }

  -- The list behind a packet: it is trimmed and the number recorded, or it stays.
  pub receive_packet-IsHeld :
      (c : AckContext) (s : SackList) (must may : ℕ → Bool) (p : Packet)
      → IsHeld s must may
      → IsRegular s p
      → IsHeld
          (receive_packet t c s (arrival p)).1
          (λ n. brings p n || (must n && not (is_read p && in_ranges p.acked_ranges n)))
          (λ n. brings p n || may n)
  unfolding receive_packet record_pn_received
  receive_packet-IsHeld c s must may p h regular =
      let new = trimmed-IsHeld s must may p.acked_ranges h regular.ranges in
      rw (verdict_on-regular s must may p h regular) (elim (Bool-cases (is_read p)) [
        | inr failed ↦
            rw (failed, failed_not_new p.has_reset_secret p.is_key_ready)
              (IsHeld-weaken s must _ may _ (λ n k. ground (arith, failed, k))
                (λ n k. ground (arith, failed, k)) h)
        | inl read ↦
            let ready : p.is_key_ready ≡ true = ground (arith, read) in
            elim (Bool-cases (holds s.items p.number)) [
              | inl seen ↦
                  rw (read, seen, is_new-duplicate)
                    (IsHeld-weaken s _ _ _ _ (λ n k. ground (arith, read, k))
                      (λ n k. ground (arith, read, k))
                      (repeated-IsHeld s must may p.number (p.is_processed && p.is_connected) h
                        seen))
              | inr unseen ↦ elim (Bool-cases (p.is_processed && p.is_connected)) [
                | inl processed ↦
                    rw (read, unseen, is_new-new_packet, processed, ready)
                      (IsHeld-weaken _ _ _ _ _ (λ n k. ground (arith, read, processed, k))
                        (λ n k. ground (arith, read, processed, k))
                        (recorded-IsHeld _ _ may p.number p.receive_time new regular.small))
                | inr rejected ↦
                    rw (read, unseen, is_new-new_packet, rejected)
                      (IsHeld-weaken _ _ _ may _ (λ n k. ground (arith, read, rejected, k))
                        (λ n k. ground (arith, read, rejected, k)) new)
              ]
            ]
      ])
