-- ===== src/PacketNumber/Arrivals.antt =====
-- Packets that arrive one after the other (picoquic/packet.c, picoquic/sacks.c): their numbers are found
-- and recorded, and the list is trimmed by the acknowledgements of acknowledgements.
use fair_queuing_aware_conge.Common.{
  ℕ, ◌≡◌, refl, Bool, false, not, ◌&&◌, ◌||◌, List, [], ◌∷◌, arith,
}
use fair_queuing_aware_conge.Sacks.{SackList, Splay}
use fair_queuing_aware_conge.Sacks.Acks.{AckContext, sack_list_init}
use fair_queuing_aware_conge.Sacks.Ranges.{holds}
use fair_queuing_aware_conge.PacketNumber.Receive.{verdict_on, receive_packet}
use fair_queuing_aware_conge.PacketNumber.Packets.{
  Packet, arrival, IsRegular, is_acked, accepted, kept, outcome,
}
use fair_queuing_aware_conge.PacketNumber.Held.{
  IsHeld, IsHeld-weaken, verdict_on-regular, receive_packet-IsHeld,
}

module _ (t : Splay) where
  unfoldable pub receive_all : AckContext → SackList → List Packet → AckContext × SackList
  receive_all c s [] = (c, s)
  receive_all c s (p ∷ ps) = let (c', s') = receive_packet t c s (arrival p) in receive_all c' s' ps

  -- Each packet is regular when it arrives.
  abbrev pub AreRegular : AckContext → SackList → List Packet → Type 0
  AreRegular c s [] = Unit
  AreRegular c s (p ∷ ps) =
      let r = receive_packet t c s (arrival p) in IsRegular s p × AreRegular r.0 r.1 ps

  -- Behind several packets the list holds what it held and is not acknowledged, and what the packets
  -- bring.
  receive_all-IsHeld :
      (c : AckContext) (s : SackList) (must may : ℕ → Bool) (ps : List Packet)
      → IsHeld s must may
      → AreRegular c s ps
      → IsHeld
          (receive_all c s ps).1
          (λ n. kept ps n || (must n && not (is_acked ps n)))
          (λ n. accepted ps n || may n)
  unfolding receive_all
  receive_all-IsHeld c s must may [] h regular =
      IsHeld-weaken s must _ may _ (λ n k. ground (arith, k)) (λ n k. k) h
  receive_all-IsHeld c s must may (p ∷ ps) h (regular, later) =
      let r = receive_packet t c s (arrival p) in
      let next = receive_packet-IsHeld t c s must may p h regular in
      let all = receive_all-IsHeld r.0 r.1 _ _ ps next later in
      IsHeld-weaken _ _ _ _ _ (λ n k. ground (arith, k)) (λ n k. ground (arith, k)) all

  -- Packets arrive one after the other at a list that starts empty and has no horizon. Each is long enough,
  -- memory is found where it is recorded, its number is near the one behind the highest that the list
  -- holds, and the ranges that its frames acknowledge are not empty. Then the number of the next such
  -- packet is found from its bytes, if its keys are ready. If the AEAD decrypts it as well, it is taken for
  -- a duplicate if a packet with its number was accepted and no later one that was read acknowledged
  -- the number, and for a new packet if no packet with its number was accepted; if not, the error is that of
  -- a stateless reset, of keys that are not ready or of the AEAD.
  pub receive_all-verdict_on :
      (c : AckContext) (ps : List Packet) (p : Packet)
      → AreRegular c sack_list_init ps
      → IsRegular (receive_all c sack_list_init ps).1 p
      → (seen : Bool) × (verdict_on t (receive_all c sack_list_init ps).1 (arrival p)
          ≡ outcome p seen)
        × ((kept ps p.number && not seen) ≡ false)
        × ((seen && not (accepted ps p.number)) ≡ false)
  unfolding sack_list_init
  receive_all-verdict_on c ps p regular next =
      let empty : IsHeld sack_list_init (λ n. false) (λ n. false) = record {
        order = tt;
        off = refl;
        complete = λ n k. k;
        sound = λ n k. k;
      } in
      let s = (receive_all c sack_list_init ps).1 in
      let h = receive_all-IsHeld c sack_list_init _ _ ps empty regular in
      (
        holds s.items p.number,
        verdict_on-regular t s _ _ p h next,
        ground (arith, h.complete p.number),
        ground (arith, h.sound p.number),
      )
