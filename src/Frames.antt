-- ===== src/Frames.antt =====
-- Frames: the coders of picoquic/util.c, on which picoquic/frames.c builds. A pointer between `bytes` and
-- `bytes_max` is the list of the bytes from it on, and NULL is none. A decoder returns the bytes behind
-- what it read, and the value in front of them. An encoder takes the room, `bytes_max - bytes`, and
-- returns the bytes that it writes.
pub mod Skip
pub mod Switch
pub mod Parse
pub mod Format
pub mod Varint
pub mod Ends
pub mod Progress
pub mod Closing
pub mod RoundTrip
pub mod Written
pub mod Room
pub mod Bytes
pub mod Null
pub mod Agreement
mod Examples
use fair_queuing_aware_conge.Common.{
  ℕ, zero, suc, ◌+◌, ◌-◌, ◌*◌, ◌/◌, ◌%◌, ◌^◌, bit_and, bit_or, Bool, true, false, List, [], ◌∷◌,
  ◌++◌, Option, none, some, length, take, drop, ltb, leb, ◌==◌, if◌then◌else◌,
}
use fair_queuing_aware_conge.Intformat.{
  byte_at, format_16, format_24, format_32, format_64, decode_loop,
}
use fair_queuing_aware_conge.Bytestream.{ConnectionId, connection_id_max_size, zeros}

infixl 10 ◌>>=◌
abbrev pub ◌>>=◌ {ℓ κ} : {A : Type ℓ} {B : Type κ} → Option A → (A → Option B) → Option B
none >>= f = none
some a >>= f = f a

-- VARINT_LEN; `& 3` is the remainder by 4.
unfoldable pub varint_len : ℕ → ℕ
varint_len first = 2 ^ (first / 2 ^ 6 % 4)

unfoldable pub frames_fixed_skip : List ℕ → ℕ → Option (List ℕ)
frames_fixed_skip bytes size = if leb size (length bytes) then some (drop size bytes) else none

unfoldable pub frames_varint_skip : List ℕ → Option (List ℕ)
frames_varint_skip [] = none
frames_varint_skip (b ∷ bs) = frames_fixed_skip (b ∷ bs) (varint_len b)

unfoldable pub frames_varint_decode : List ℕ → Option (ℕ × List ℕ)
frames_varint_decode [] = none
frames_varint_decode (b ∷ bs) =
    let rounds = varint_len b - 1 in
    if leb (varint_len b) (length (b ∷ bs))
    then some (decode_loop rounds bs (bit_and b 0x3F), drop rounds bs)
    else none

-- The type size_t has 64 bits, so that the value fits.
unfoldable pub frames_varlen_decode : List ℕ → Option (ℕ × List ℕ)
frames_varlen_decode bytes = frames_varint_decode bytes

unfoldable pub frames_uint8_decode : List ℕ → Option (ℕ × List ℕ)
frames_uint8_decode [] = none
frames_uint8_decode (b ∷ bs) = some (b, bs)

unfoldable pub frames_length_data_skip : List ℕ → Option (List ℕ)
frames_length_data_skip bytes = do
  (size, data_bytes) ← frames_varint_decode bytes
  frames_fixed_skip data_bytes size

unfoldable pub frames_varint_encode : ℕ → ℕ → Option (List ℕ)
frames_varint_encode n64 room =
    if ltb n64 16384
    then (if ltb n64 64
        then (if leb 1 room then some (byte_at n64 0 ∷ []) else none)
        else (if leb 2 room
            then some ((bit_or (n64 / 2 ^ 8) 0x40 % 256) ∷ (byte_at n64 0 ∷ []))
            else none))
    else (if ltb n64 1073741824
        then (if leb 4 room
            then some (
                (bit_or (n64 / 2 ^ 24) 0x80 % 256)
                ∷ (byte_at n64 16 ∷ (byte_at n64 8 ∷ (byte_at n64 0 ∷ []))))
            else none)
        else (if leb 8 room
            then some (
                (bit_or (n64 / 2 ^ 56) 0xC0 % 256)
                ∷ (byte_at n64 48
                    ∷ (byte_at n64 40
                        ∷ (byte_at n64 32
                            ∷ (byte_at n64 24
                                ∷ (byte_at n64 16 ∷ (byte_at n64 8 ∷ (byte_at n64 0 ∷ []))))))))
            else none))

unfoldable pub frames_varlen_encode : ℕ → ℕ → Option (List ℕ)
frames_varlen_encode n room = frames_varint_encode n room

-- The encoders of fixed width, on the bytes of the number.
unfoldable pub put : List ℕ → ℕ → Option (List ℕ)
put bytes room = if ltb room (length bytes) then none else some bytes

unfoldable pub frames_uint8_encode : ℕ → ℕ → Option (List ℕ)
frames_uint8_encode n room = put (n ∷ []) room

unfoldable pub frames_uint16_encode : ℕ → ℕ → Option (List ℕ)
frames_uint16_encode n room = put (format_16 n) room

unfoldable pub frames_uint24_encode : ℕ → ℕ → Option (List ℕ)
frames_uint24_encode n room = put (format_24 n) room

unfoldable pub frames_uint32_encode : ℕ → ℕ → Option (List ℕ)
frames_uint32_encode n room = put (format_32 n) room

unfoldable pub frames_uint64_encode : ℕ → ℕ → Option (List ℕ)
frames_uint64_encode n room = put (format_64 n) room

-- One encoder after the other, in what room is left.
infixl 20 ◌then_put◌
unfoldable pub ◌then_put◌ : (ℕ → Option (List ℕ)) → (ℕ → Option (List ℕ)) → ℕ → Option (List ℕ)
(e then_put f) room = do first ← e room; second ← f (room - length first); some (first ++ second)

unfoldable pub frames_length_data_encode : List ℕ → ℕ → Option (List ℕ)
frames_length_data_encode v = frames_varlen_encode (length v) then_put put v

unfoldable pub frames_cid_encode : ConnectionId → ℕ → Option (List ℕ)
frames_cid_encode cid = frames_length_data_encode (take cid.id_len cid.id)

-- A string is NULL, or its characters before the final zero.
unfoldable pub frames_charz_encode : Option (List ℕ) → ℕ → Option (List ℕ)
frames_charz_encode none = frames_varlen_encode 0
frames_charz_encode (some s) = frames_length_data_encode s
