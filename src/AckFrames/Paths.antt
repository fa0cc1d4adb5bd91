-- ===== src/AckFrames/Paths.antt =====
-- ACK frames on a connection with several paths (picoquic/frames.c, `picoquic_format_ack_frame`,
-- `picoquic_process_ack_of_ack_mp_frame`, `picoquic_set_ack_needed`): each local connection identifier has
-- an acknowledgement context of its own.
use fair_queuing_aware_conge.Common.{
  ℕ, ◌-◌, Bool, true, false, ◌&&◌, ◌||◌, List, [], ◌∷◌, ◌++◌, Option, none, some, length, ◌==◌,
  if◌then◌else◌, u64_max,
}
use fair_queuing_aware_conge.Frames.Skip.{skip_ack_frame_maybe_ecn}
use fair_queuing_aware_conge.Sacks.{SackList, Splay}
use fair_queuing_aware_conge.Sacks.Acks.{AckContext}
use fair_queuing_aware_conge.AckFrames.Format.{AckConnection, with_act, format_ack_frame_in_context}
use fair_queuing_aware_conge.AckFrames.Read.{AckHeader, parse_ack_header, process_body}

-- picoquic_ack_context_t, whole
pub record AckState : Type 0 where
  pub context : AckContext
  pub list : SackList

-- picoquic_local_cnxid_t, as far as the functions use it
pub record LocalCnxid : Type 0 where
  pub sequence : ℕ
  pub ack_ctx : AckState

-- What is written, the identifiers, and ack_still_needed, ack_after_fin and *more_data.
pub record PathFrames : Type 0 where
  pub bytes : List ℕ
  pub cnxids : List LocalCnxid
  pub ack_still_needed : Bool
  pub ack_after_fin : Bool
  pub more_data : Bool

unfoldable pub format_paths : AckConnection → Bool → ℕ → ℕ → Bool → List LocalCnxid → PathFrames
format_paths cnx opp room current_time need_time_stamp [] = record {
  bytes = [];
  cnxids = [];
  ack_still_needed = false;
  ack_after_fin = false;
  more_data = false;
}
format_paths cnx opp room current_time need_time_stamp (l ∷ cnxids) =
    let (f, need_time_stamp) =
      format_ack_frame_in_context cnx opp room current_time l.sequence (l.ack_ctx).context
        (l.ack_ctx).list need_time_stamp in
    let rest = format_paths cnx opp (room - length f.bytes) current_time need_time_stamp cnxids in
    record {
      bytes = f.bytes ++ rest.bytes;
      cnxids = record l { ack_ctx = record { context = f.context; list = f.list } } ∷ rest.cnxids;
      ack_still_needed = (f.context.act opp).ack_needed || rest.ack_still_needed;
      ack_after_fin = (f.context.act opp).ack_after_fin || rest.ack_after_fin;
      more_data = f.more_data || rest.more_data;
    }

-- The acknowledgement state of a packet context: whether it is that of the application, its own
-- acknowledgement context, and the connection identifiers.
pub record Acknowledger : Type 0 where
  pub is_application : Bool
  pub ack_ctx : AckState
  pub cnxids : List LocalCnxid

-- picoquic_format_ack_frame: what is written, the state, and *more_data.
unfoldable pub format_ack_frame :
    AckConnection → Bool → ℕ → ℕ → Acknowledger → List ℕ × Acknowledger × Bool
format_ack_frame cnx opp room current_time a =
    let need_time_stamp = a.is_application && cnx.is_time_stamp_sent in
    let (f, _) =
      format_ack_frame_in_context cnx opp room current_time u64_max (a.ack_ctx).context
        (a.ack_ctx).list need_time_stamp in
    let p = format_paths cnx opp room current_time need_time_stamp a.cnxids in
    if cnx.is_multipath_enabled && a.is_application
    then (
      p.bytes,
      record a {
        cnxids = p.cnxids;
        ack_ctx = record (a.ack_ctx) {
          context =
              with_act opp
                (λ t. record t { ack_needed = p.ack_still_needed; ack_after_fin = p.ack_after_fin })
                (a.ack_ctx).context;
        };
      },
      p.more_data,
    )
    else (
      f.bytes,
      record a { ack_ctx = record { context = f.context; list = f.list } },
      f.more_data,
    )

-- picoquic_set_ack_needed, of one context
unfoldable pub need_ack : ℕ → AckContext → AckContext
need_ack current_time c = if (c.act false).ack_needed then c else record c {
  act =
      λ r. record (c.act r) { ack_needed = true; time_oldest_unack_packet_received = current_time };
}

-- and of the context of the identifier l_cid, where there are several paths, and that of the connection
unfoldable pub set_ack_needed : Bool → ℕ → Bool → LocalCnxid → AckContext → LocalCnxid × AckContext
set_ack_needed is_multipath_enabled current_time is_application l_cid c =
    let needed = record l_cid {
      ack_ctx = record (l_cid.ack_ctx) { context = need_ack current_time (l_cid.ack_ctx).context };
    } in
    (if is_application && is_multipath_enabled then needed else l_cid, need_ack current_time c)

-- The identifiers, the bytes from `*consumed` on, and whether `ret` is 0.
pub record PathProcessed : Type 0 where
  pub cnxids : List LocalCnxid
  pub rest : List ℕ
  pub is_ok : Bool

-- picoquic_find_local_cnxid_by_number
unfoldable pub find_local_cnxid_by_number : List LocalCnxid → ℕ → Option LocalCnxid
find_local_cnxid_by_number [] sequence = none
find_local_cnxid_by_number (l ∷ cnxids) sequence =
    if l.sequence == sequence then some l else find_local_cnxid_by_number cnxids sequence

-- Through the pointer that was found, its list is updated.
unfoldable pub update_found : List LocalCnxid → ℕ → SackList → List LocalCnxid
update_found [] sequence list = []
update_found (l ∷ cnxids) sequence list =
    if l.sequence == sequence
    then record l { ack_ctx = record (l.ack_ctx) { list = list } } ∷ cnxids
    else l ∷ update_found cnxids sequence list

-- The path of the frame is unknown, and the frame is skipped.
unfoldable pub skip_unknown : List LocalCnxid → Option (List ℕ) → PathProcessed
skip_unknown cnxids none = record { cnxids = cnxids; rest = []; is_ok = false }
skip_unknown cnxids (some rest) = record { cnxids = cnxids; rest = rest; is_ok = true }

module _ (t : Splay) where
  unfoldable pub process_found :
      Bool → List LocalCnxid → List ℕ → AckHeader → List ℕ → Option LocalCnxid → PathProcessed
  process_found is_ecn cnxids bytes header rest none =
      skip_unknown cnxids (skip_ack_frame_maybe_ecn is_ecn true bytes)
  process_found is_ecn cnxids bytes header rest (some l_cid) =
      let p = process_body t is_ecn header.num_block (l_cid.ack_ctx).list header.largest rest in
      record { cnxids = update_found cnxids header.path_id p.list; rest = p.rest; is_ok = p.is_ok }

  unfoldable pub process_path_header :
      Bool → List LocalCnxid → List ℕ → Option (AckHeader × List ℕ) → PathProcessed
  process_path_header is_ecn cnxids bytes none = record {
    cnxids = cnxids;
    rest = [];
    is_ok = false;
  }
  process_path_header is_ecn cnxids bytes (some (header, rest)) =
      process_found is_ecn cnxids bytes header rest
        (find_local_cnxid_by_number cnxids header.path_id)

  -- picoquic_process_ack_of_ack_mp_frame
  unfoldable pub process_ack_of_ack_mp_frame : Bool → List LocalCnxid → List ℕ → PathProcessed
  process_ack_of_ack_mp_frame is_ecn cnxids bytes =
      process_path_header is_ecn cnxids bytes (parse_ack_header true 0 bytes)
