-- ===== src/Frames/Null.antt =====
-- What the functions of picoquic/frames.c that write a frame return where there is no room for it.
use fair_queuing_aware_conge.Common.{ℕ, ◌<◌, ◌≡◌, ◌≢◌, refl, true, List, Option, none, some, arith}
use fair_queuing_aware_conge.Intformat.{format_64}
use fair_queuing_aware_conge.Frames.{frames_uint8_encode, frames_uint64_encode, put, ◌then_put◌}
use fair_queuing_aware_conge.Frames.Format.{
  Flags, finish, finish_or_null, path_challenge_frame, path_response_frame,
  format_path_challenge_frame, format_path_response_frame, format_retire_connection_id_frame,
  format_new_token_frame, format_application_close_frame, format_datagram_frame,
  format_connection_close_frame, Connection,
}

too_long :
    (type challenge room : ℕ)
    → room < 9
    → (frames_uint8_encode type then_put frames_uint64_encode challenge) room ≡ none
unfolding ◌then_put◌ frames_uint8_encode frames_uint64_encode put format_64
too_long type challenge room h = ground (arith, h)

never_null : (flags : Flags) (out : Option (List ℕ)) → (finish flags out).0 ≢ none
unfolding finish
never_null flags none = λ e. ground (arith, e)
never_null flags (some out) = λ e. ground (arith, e)

-- Where there is no room, the functions for a path challenge and a path response return NULL and say that
-- there is more data; those for a retired connection identifier, a new token, a datagram and the two
-- kinds of a close do not return NULL.
pub no_room-null :
    (room : ℕ) (flags : Flags) (cnx : Connection) (n : ℕ) (data_bytes : List ℕ)
    → room < 9
    → (format_path_challenge_frame room flags n ≡ (none, record flags { more_data = true }))
      × (format_path_response_frame room flags n ≡ (none, record flags { more_data = true }))
      × ((format_retire_connection_id_frame room flags n).0 ≢ none)
      × ((format_new_token_frame room flags data_bytes).0 ≢ none)
      × ((format_datagram_frame room flags data_bytes).0 ≢ none)
      × ((format_connection_close_frame room flags cnx).0 ≢ none)
      × ((format_application_close_frame room flags cnx).0 ≢ none)
unfolding format_path_challenge_frame format_path_response_frame finish_or_null path_challenge_frame
    path_response_frame format_retire_connection_id_frame format_new_token_frame
    format_datagram_frame format_connection_close_frame format_application_close_frame
no_room-null room flags cnx n data_bytes h = (
  rw (too_long 0x1a n room h) refl,
  rw (too_long 0x1b n room h) refl,
  never_null flags _,
  never_null flags _,
  never_null flags _,
  never_null flags _,
  never_null flags _,
)
