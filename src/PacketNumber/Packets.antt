-- ===== src/PacketNumber/Packets.antt =====
-- Packets as they were sent, for picoquic/packet.c: which of them are accepted, and what is said of them.
use fair_queuing_aware_conge.Common.{
  ℕ, ◌+◌, ◌-◌, ◌*◌, ◌^◌, ◌<◌, ◌≤◌, Bool, true, false, not, ◌&&◌, ◌||◌, List, [], ◌∷◌, if◌then◌else◌,
  ◌==◌, add64, u64_max,
}
use fair_queuing_aware_conge.Sacks.{SackList}
use fair_queuing_aware_conge.Sacks.Acks.{last_number}
use fair_queuing_aware_conge.Sacks.Ranges.{within}
use fair_queuing_aware_conge.PacketNumber.Window.{low_bytes}
use fair_queuing_aware_conge.PacketNumber.Receive.{
  Arrival, Verdict, new_packet, duplicate, stateless_reset, aead_not_ready, aead_check,
}

-- A packet as it was sent: its number, of which so many bytes are in the header, and its fate.
pub record Packet : Type 0 where
  pub number : ℕ
  pub pn_length : ℕ
  pub is_key_ready : Bool
  pub is_decrypted : Bool
  pub has_reset_secret : Bool
  pub acked_ranges : List (ℕ × ℕ)
  pub is_processed : Bool
  pub is_connected : Bool
  pub receive_time : ℕ

-- It is long enough, and memory is found for it.
abbrev pub arrival : Packet → Arrival
arrival p = record {
  is_key_ready = p.is_key_ready;
  has_sample = true;
  pn_bytes = low_bytes p.pn_length p.number;
  is_decrypted = p.is_decrypted;
  has_reset_secret = p.has_reset_secret;
  acked_ranges = p.acked_ranges;
  is_processed = p.is_processed;
  is_connected = p.is_connected;
  is_allocated = true;
  receive_time = p.receive_time;
}

abbrev pub AreRanges : List (ℕ × ℕ) → Type 0
AreRanges [] = Unit
AreRanges ((lo, hi) ∷ ranges) = (lo ≤ hi) × (hi < 2 ^ 62) × AreRanges ranges

-- The number is near the one behind the highest that the list holds, and the ranges that the packet
-- acknowledges are not empty.
pub record IsRegular (s : SackList) (p : Packet) : Type 0 where
  pub some_bytes : 0 < p.pn_length
  pub few_bytes : p.pn_length ≤ 4
  pub next_small : add64 (last_number s.items) 1 < 2 ^ 62
  pub small : p.number < 2 ^ 62
  pub not_far_below : add64 (last_number s.items) 1 ≤ p.number + 2 ^ (8 * p.pn_length - 1)
  pub not_far_above : p.number < add64 (last_number s.items) 1 + 2 ^ (8 * p.pn_length - 1)
  pub ranges : AreRanges p.acked_ranges

-- The keys are ready and the AEAD decrypts the packet.
abbrev pub is_read : Packet → Bool
is_read p = p.is_key_ready && p.is_decrypted

-- The packet is accepted, and its number is this one.
abbrev pub brings : Packet → ℕ → Bool
brings p n = is_read p && p.is_processed && p.is_connected && (n == p.number)

abbrev pub in_ranges : List (ℕ × ℕ) → ℕ → Bool
in_ranges [] n = false
in_ranges ((lo, hi) ∷ ranges) n = within lo hi n || in_ranges ranges n

-- A packet that is read acknowledges the number's range.
abbrev pub is_acked : List Packet → ℕ → Bool
is_acked [] n = false
is_acked (p ∷ ps) n = (is_read p && in_ranges p.acked_ranges n) || is_acked ps n

-- The abstract view: the numbers of the accepted packets, and those of them whose acknowledgement no
-- later packet acknowledges.
abbrev pub accepted : List Packet → ℕ → Bool
accepted [] n = false
accepted (p ∷ ps) n = brings p n || accepted ps n

abbrev pub kept : List Packet → ℕ → Bool
kept [] n = false
kept (p ∷ ps) n = (brings p n && not (is_acked ps n)) || kept ps n

-- What is said of a packet, given whether its number counts as seen.
abbrev pub outcome : Packet → Bool → ℕ × Verdict
outcome p seen = (
  if p.is_key_ready then p.number else u64_max,
  if is_read p
      then (if seen then duplicate else new_packet)
      else (if p.has_reset_secret
          then stateless_reset
          else (if p.is_key_ready then aead_check else aead_not_ready)),
)
