-- ===== src/PacketNumber/Receive.antt =====
-- The way of a packet's number through picoquic/packet.c: it is found from the bytes and the sack list of
-- the context (picoquic_remove_header_protection), compared with the list
-- (picoquic_remove_packet_protection), judged (picoquic_parse_header_and_decrypt), and recorded in the
-- list if the packet is accepted (picoquic_incoming_segment). The frames of a packet reach the list
-- through the acknowledgements of acknowledgements in them.
use fair_queuing_aware_conge.Common.{
  ℕ, Bool, true, false, List, [], ◌∷◌, ◌&&◌, if◌then◌else◌, u64_max,
}
use fair_queuing_aware_conge.Sacks.{SackList, Splay}
use fair_queuing_aware_conge.Sacks.Operations.{is_pn_already_received}
use fair_queuing_aware_conge.Sacks.Acks.{
  AckContext, last_number, record_pn_received, process_ack_of_ack_range,
}
use fair_queuing_aware_conge.PacketNumber.{packet_number64}

-- A packet as it arrives: whether the keys of its epoch are ready, whether it is long enough for the
-- sample of the header protection, the bytes of its number without the protection, whether the AEAD of
-- the TLS library decrypts it, whether it is a 1-RTT packet of at least PICOQUIC_RESET_PACKET_MIN_SIZE
-- bytes that ends in the peer's reset secret, the ranges of own ACK frames that its frames acknowledge,
-- whether its frames are processed without an error and the connection is not disconnected by them,
-- whether memory is found where its number is recorded, and the time.
pub record Arrival : Type 0 where
  pub is_key_ready : Bool
  pub has_sample : Bool
  pub pn_bytes : List ℕ
  pub is_decrypted : Bool
  pub has_reset_secret : Bool
  pub acked_ranges : List (ℕ × ℕ)
  pub is_processed : Bool
  pub is_connected : Bool
  pub is_allocated : Bool
  pub receive_time : ℕ

-- No error, and PICOQUIC_ERROR_DUPLICATE, _STATELESS_RESET, _AEAD_NOT_READY and _AEAD_CHECK
pub data Verdict : Type 0 where
  new_packet : Verdict
  duplicate : Verdict
  stateless_reset : Verdict
  aead_not_ready : Verdict
  aead_check : Verdict

unfoldable pub is_new : Verdict → Bool
is_new new_packet = true
is_new duplicate = false
is_new stateless_reset = false
is_new aead_not_ready = false
is_new aead_check = false

module _ (t : Splay) where
  -- The number that picoquic_remove_header_protection leaves in the header, which is set to 0 before.
  unfoldable pub header_pn64 : SackList → Arrival → ℕ
  header_pn64 s a =
      if a.is_key_ready
      then (if a.has_sample then packet_number64 (last_number s.items) a.pn_bytes else 0)
      else u64_max

  -- The number of the packet, and what is said of it.
  unfoldable pub verdict_on : SackList → Arrival → ℕ × Verdict
  verdict_on s a =
      let pn64 = header_pn64 s a in
      (
        pn64,
        if a.is_key_ready && a.is_decrypted
            then (if is_pn_already_received t s pn64 then duplicate else new_packet)
            else (if a.has_reset_secret
                then stateless_reset
                else (if a.is_key_ready then aead_check else aead_not_ready)),
      )

  -- The ranges of the list that the packet's frames acknowledge, one after the other.
  unfoldable pub process_acked_ranges : SackList → List (ℕ × ℕ) → SackList
  process_acked_ranges s [] = s
  process_acked_ranges s ((lo, hi) ∷ ranges) =
      process_acked_ranges (process_ack_of_ack_range t s lo hi) ranges

  -- The frames of a packet without an error are processed; then its number is recorded.
  unfoldable pub receive_packet : AckContext → SackList → Arrival → AckContext × SackList
  receive_packet c s a =
      let (pn64, verdict) = verdict_on s a in
      let trimmed = process_acked_ranges s a.acked_ranges in
      if is_new verdict
      then (if a.is_processed && a.is_connected
          then (let (context, updated, ret) =
                record_pn_received t a.is_allocated c trimmed pn64 a.receive_time in
              (context, updated))
          else (c, trimmed))
      else (c, s)
