-- ===== src/Bytestream/Examples.antt =====
-- Runs of the byte stream, and the theorems at concrete inputs.
use fair_queuing_aware_conge.Common.{ℕ, ◌+◌, ◌≤◌, ◌≡◌, refl, true, List, [], ◌∷◌, leb}
use fair_queuing_aware_conge.Intformat.{varint_decode, decode_loop}
use fair_queuing_aware_conge.Bytestream.{
  zeros, Bytestream, bytestream_size, bytestream_remain, advance, byteread_vint, bytestream_skip,
  byteskip_cstr,
}
use fair_queuing_aware_conge.Common.{none, arith}
use fair_queuing_aware_conge.Intformat.{encode_varint_length}
use fair_queuing_aware_conge.Bytestream.{bytestream_reset, byteskip_addr}
use fair_queuing_aware_conge.Bytestream.Create.{bytestream_clear, bytestream_buf_init}
use fair_queuing_aware_conge.Bytestream.Address.{SocketAddress, bytewrite_addr, byteread_addr}
use fair_queuing_aware_conge.Bytestream.Address.RoundTrip.{byteread_addr-bytewrite_addr}
use fair_queuing_aware_conge.Bytestream.Errors.{
  Write, vint, int64, cstr, skip, total, writes, writes-IsWritten,
}

-- Twenty bytes, and a string of three.
abbrev room : List ℕ
room = 0 ∷ 0 ∷ 0 ∷ 0 ∷ 0 ∷ 0 ∷ 0 ∷ 0 ∷ 0 ∷ 0 ∷ 0 ∷ 0 ∷ 0 ∷ 0 ∷ 0 ∷ 0 ∷ 0 ∷ 0 ∷ 0 ∷ 0 ∷ []

abbrev abc : List ℕ
abc = 97 ∷ 98 ∷ 99 ∷ []

abbrev stream : Bytestream
stream = record { front = []; rest = room }

-- A string is passed over by its length.
skip_abc :
    byteskip_cstr (record { front = []; rest = 3 ∷ 97 ∷ 98 ∷ 99 ∷ 7 ∷ [] })
    ≡ (record { front = 3 ∷ abc; rest = 7 ∷ [] }, true)
unfolding byteskip_cstr byteread_vint bytestream_skip advance varint_decode decode_loop
skip_abc = refl

-- A string, a number and a gap, which leave two of the twenty bytes.
abbrev calls : List Write
calls = cstr abc ∷ int64 5 ∷ vint 70000 ∷ skip 2 ∷ []

writes-IsWritten_example :
    ((writes stream calls).1 ≡ leb (total calls) (bytestream_remain stream))
    × (total calls ≤ bytestream_remain stream
        → bytestream_remain (writes stream calls).0 + total calls ≡ bytestream_remain stream)
    × (bytestream_size (writes stream calls).0 ≡ bytestream_size stream)
writes-IsWritten_example = writes-IsWritten calls stream

-- 127.0.0.1, port 443, where AF_INET is 2 and AF_INET6 is 10
abbrev loopback : SocketAddress
loopback = record { family = 2; address = 127 ∷ 0 ∷ 0 ∷ 1 ∷ []; port = 443 }

abbrev nowhere : SocketAddress
nowhere = record { family = 0; address = []; port = 0 }

byteread_addr-bytewrite_addr_example :
    let written = bytewrite_addr 2 stream loopback in
    (written.1 ≡ true)
    × (byteread_addr 2 10 (bytestream_reset written.0) nowhere ≡ (written.0, true, loopback))
    × (byteskip_addr 2 (bytestream_reset written.0) ≡ (written.0, true))
unfolding encode_varint_length
byteread_addr-bytewrite_addr_example =
    byteread_addr-bytewrite_addr 2 10 room loopback nowhere (refl, omega arith, refl, omega arith)
      (omega arith)

clear_run :
    bytestream_clear (record { front = 7 ∷ 8 ∷ []; rest = 9 ∷ [] })
    ≡ record { front = []; rest = zeros 3 }
unfolding bytestream_clear bytestream_size
clear_run = refl

too_long_run : bytestream_buf_init room 2561 ≡ none
unfolding bytestream_buf_init
too_long_run = refl
