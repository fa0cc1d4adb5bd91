-- ===== src/Cc.antt =====
-- What the congestion control algorithms share: the notifications of picoquic/picoquic.h, the
-- constants of picoquic/picoquic_internal.h, and the C type double.
pub mod RttFilter
pub mod Path
pub mod Pacing
pub mod Samples
pub mod Growth
use fair_queuing_aware_conge.Common.{ℕ, ◌*◌, Bool}

-- picoquic_congestion_notification_t
pub data Notification : Type 0 where
  acknowledgement repeat timeout spurious_repeat rtt_measurement : Notification
  bw_measurement ecn_ec cwin_blocked seed_cwin reset : Notification

abbrev pub max_packet_size : ℕ
max_packet_size = 1536

abbrev pub cwin_initial : ℕ
cwin_initial = 10 * max_packet_size

abbrev pub cwin_minimum : ℕ
cwin_minimum = 2 * max_packet_size

abbrev pub target_reno_rtt : ℕ
target_reno_rtt = 100000

abbrev pub target_satellite_rtt : ℕ
target_satellite_rtt = 610000

-- The floating point type and its operations, which the compiler provides. `literal m k` is the
-- constant m * 10 ^ -k; `of_u64` and `to_u64` are the casts from and to uint64_t.
pub record Doubles : Type 1 where
  pub Double : Type 0
  pub literal : ℕ → ℕ → Double
  pub of_u64 : ℕ → Double
  pub to_u64 : Double → ℕ
  pub plus : Double → Double → Double
  pub minus : Double → Double → Double
  pub times : Double → Double → Double
  pub over : Double → Double → Double
  pub less : Double → Double → Bool
