-- ===== src/Bytestream/Create.antt =====
-- How a stream of picoquic/bytestream.c comes about, its memory, and its erasure. What the memory holds
-- at first, and whether malloc finds any, are arguments.
use fair_queuing_aware_conge.Common.{
  ℕ, List, [], ◌++◌, Option, none, some, take, ltb, if◌then◌else◌,
}
use fair_queuing_aware_conge.Bytestream.{Bytestream, zeros, bytestream_size}

abbrev pub max_buffer_size : ℕ
max_buffer_size = 2560

-- bytestream_buf_init, on what stands in `buf`
unfoldable pub bytestream_buf_init : List ℕ → ℕ → Option Bytestream
bytestream_buf_init buf nb_bytes =
    if ltb max_buffer_size nb_bytes
    then none
    else some (record { front = []; rest = take nb_bytes buf })

-- bytestream_alloc, on the memory that malloc gives
unfoldable pub bytestream_alloc : Option (List ℕ) → Option Bytestream
bytestream_alloc none = none
bytestream_alloc (some bytes) = some (record { front = []; rest = bytes })

-- What `bytestream_data` and `bytestream_ptr` point to
unfoldable pub bytestream_data : Bytestream → List ℕ
bytestream_data s = s.front ++ s.rest

unfoldable pub bytestream_ptr : Bytestream → List ℕ
bytestream_ptr s = s.rest

unfoldable pub bytestream_clear : Bytestream → Bytestream
bytestream_clear s = record { front = []; rest = zeros (bytestream_size s) }
