-- ===== src/NewTonopah.antt =====
-- The fair queuing aware congestion control: picoquic/new_tonopah.c. Two paths of one connection
-- share one window; the dominant path gets two thirds of it, and fair queuing shows in its longer
-- round trips.
--
-- The variables of the file that are named new_tonopah_* are the fields of `Globals`. A path is
-- known by its address, a number, and `World` holds what the addresses point to. The list of
-- intervals is kept with the newest first: the head is new_tonopah_interval_list_last, the rest
-- of the list hangs at its `prev`, and the `next` of an interval is the one before it in the list.
-- Output to the console is left out, and new_tonopah_last_cnx with it, which only serves that.
pub mod Sim
pub mod Interval
pub mod SetPath
pub mod Handler
pub mod Safety
pub mod Windows
pub mod Detection
pub mod Faults
mod Examples
use fair_queuing_aware_conge.Common.{ℕ, zero, suc, ◌+◌, Bool, Option, List, ◌==◌, if◌then◌else◌}
use fair_queuing_aware_conge.Cc.Path.{PathState, Cnx}
use fair_queuing_aware_conge.Cc.RttFilter.{MinMaxRtt}

-- picoquic_new_tonopah_alg_state_t
pub data AlgState : Type 0 where
  slow_start congestion_avoidance : AlgState

-- picoquic_new_tonopah_sim_state_t
pub record SimState : Type 0 where
  pub alg_state : AlgState
  pub cwin : ℕ
  pub residual_ack : ℕ
  pub ssthresh : ℕ
  pub recovery_start : ℕ
  pub recovery_sequence : ℕ

-- The fields of an interval that exist once for each path: first_seq_num1, ..., finished1 are
-- `side1`, those of the second path `side2`.
pub record Side (D : Type 0) : Type 0 where
  pub first_seq_num : ℕ
  pub first_ack_time : ℕ
  pub last_ack_time : ℕ
  pub bytes_received : ℕ
  pub rtt_sum : D
  pub num_acks : ℕ
  pub finished : Bool

-- picoquic_new_tonopah_interval_info_t, without its pointers
pub record IntervalInfo (D : Type 0) : Type 0 where
  pub side1 : Side D
  pub side2 : Side D
  pub dominant_path_id : ℕ
  pub dont_use : Bool

-- The global variables; NULL is `none`.
pub record Globals (D : Type 0) : Type 0 where
  pub intervals : List (IntervalInfo D)
  pub last_change : ℕ
  pub path1 : Option ℕ
  pub path2 : Option ℕ
  pub dominant_path : Option ℕ

-- picoquic_new_tonopah_state_t
pub record TonopahState (D : Type 0) : Type 0 where
  pub nrss : SimState
  pub rtt_filter : MinMaxRtt D

-- The connection with its array of paths, the paths and their congestion_alg_state by address, and
-- the globals.
pub record World (D : Type 0) : Type 0 where
  pub cnx : Cnx
  pub slots : List ℕ
  pub paths : ℕ → PathState
  pub states : ℕ → Option (TonopahState D)
  pub globals : Globals D

abbrev pub write {ℓ} : {A : Type ℓ} → (ℕ → A) → ℕ → A → ℕ → A
write f i v j = if j == i then v else f j

-- What ends a run: a failed assert, a NULL pointer that is followed, an element past the end of
-- the array of paths, and abort().
pub data Fault : Type 0 where
  assertion null_pointer out_of_bounds aborted : Fault

pub data Outcome {ℓ} (A : Type ℓ) : Type ℓ where
  ok : A → Outcome A
  fault : Fault → Outcome A

infixl 5 ◌>>=◌
abbrev pub ◌>>=◌ {ℓ κ} : {A : Type ℓ} {B : Type κ} → Outcome A → (A → Outcome B) → Outcome B
ok a >>= f = f a
fault e >>= f = fault e

-- assert
abbrev pub guard : Bool → Fault → Outcome (Unit {0})
guard b e = if b then ok tt else fault e

infixl 5 ◌>>◌
abbrev pub ◌>>◌ {ℓ} : {B : Type ℓ} → Outcome (Unit {0}) → Outcome B → Outcome B
m >> k = m >>= λ _. k

-- The path that a slot of the array points to.
unfoldable pub slot : List ℕ → ℕ → Outcome ℕ
slot List.[] i = fault out_of_bounds
slot (List.◌∷◌ a rest) zero = ok a
slot (List.◌∷◌ a rest) (suc i) = slot rest i

abbrev pub is_path : Option ℕ → ℕ → Bool
is_path Option.none a = Bool.false
is_path (Option.some b) a = b == a

abbrev pub is_null : Option ℕ → Bool
is_null Option.none = Bool.true
is_null (Option.some b) = Bool.false
