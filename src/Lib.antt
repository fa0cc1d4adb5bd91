-- ===== src/Lib.antt =====
-- picoquic with a congestion control that is aware of fair queuing: a model of the parts that decide
-- how much a connection sends, and when, of the ranges of packets that it has received, and of the
-- formats that its packets and frames are made of.
--
-- The program. picoquic is a QUIC transport. A connection notifies its congestion control algorithm
-- of acknowledgements, losses, marks and measurements; the algorithm sets the congestion window of
-- the path and then lets the pacing recompute its rate from the window. New Reno keeps a simulated
-- window that is apart from the path. The fair queuing aware algorithm runs one such simulation for
-- a connection with two paths, splits its window between them, and compares the round trips of the
-- two paths interval by interval: a dominant path that is slower by more than 5 ms shows that the
-- bottleneck schedules the flows fairly.
--
-- The files.
--   Common: the names of the library that the parts share, integers with their wrap-around, tests,
--     lists, masks of bytes.
--   Intformat: picoquic/intformat.c, integers of variable length and of fixed width.
--   Bytestream: picoquic/bytestream.c, reading and writing at a position of a buffer. Create is the
--     making of a stream, Address the coding of socket addresses.
--   Cc: the notifications of picoquic/picoquic.h, the constants and the fields of the path and the
--     connection of picoquic/picoquic_internal.h.
--   Cc/RttFilter: picoquic/cc_common.c and picoquic/cc_common.h, the ring of RTT samples and the
--     tests for the end of slow start.
--   Cc/Growth: the rest of picoquic/cc_common.c.
--   Cc/Pacing: the pacing of picoquic/sender.c.
--   Frames: the coders of picoquic/util.c. Skip and Switch are the functions of picoquic/frames.c that
--     skip a frame, Parse those that read its fields, and Format those that write a frame.
--   Sacks: picoquic/sacks.c, the lists of the ranges of numbers that were received, and the structures
--     of picoquic/picoquic_internal.h that it uses. Operations is the update of a list, Acks the
--     sending and the acknowledgement of its ranges.
--   AckFrames: the ACK frames of picoquic/frames.c. Format writes the frame of a context from its sack
--     list, Read processes such a frame when the packet with it is acknowledged, and Paths does both
--     for the contexts of several paths. Queue is what a range that the peer acknowledges does to the
--     queue of sent packets.
--   PacketNumber: the packet numbers of picoquic/packet.c. Receive is their way through the test for
--     duplicates to the sack list, which the packet's frames may trim first.
--   PortBlocking: picoquic/port_blocking.c, the ports that a server does not answer.
--   Picohash: picoquic/picohash.c, the hash tables of connections and packets, over the hash and the
--     comparison that the caller gives.
--   Newreno: picoquic/newreno.c.
--   Fastcc: picoquic/fastcc.c.
--   NewTonopah: picoquic/new_tonopah.c. Sim is the simulated window, Interval and SetPath the list
--     of intervals and the split of the window, Handler the entry points.
--   The modules below these hold the theorems; those named Examples hold runs and the theorems at
--   concrete inputs.
--
-- How the code is rendered. A function that writes through a pointer returns what it writes. The
-- integers of type uint64_t are numbers, and each operation on them that may leave the range is
-- followed by its wrap-around; those of type int64_t are integers, with the conversions of C to and
-- from uint64_t. A NULL pointer is none. The global variables of new_tonopah.c are a record that the
-- functions take and return, and the paths are known by their addresses. A failed assert, a NULL
-- pointer that is followed, an element past the end of the array of paths and abort() are results.
-- The type double and its operations are a parameter, of which nothing is assumed; the runs take
-- exact fractions for it. The splay tree of picoquic/picosplay.c, the copy of a library, is a
-- parameter too, with what its search and its insertion do to the items in order. Whether malloc
-- succeeds and what the clock says are arguments. The loop over the frames of a packet runs on fuel,
-- for which more than the number of bytes is enough, since a frame has at least one byte; so does the
-- loop over the queue of sent packets, where the number of the packets and of the numbers in the range
-- is enough. The other loops run over lists, or a number of times that is known at their start.
--
-- Not modelled: the rest of the packets and connections of the transport, and what most frames do to
-- them, the retransmission of lost packets, the transport parameters, the stores of tickets and tokens,
-- and the other congestion control algorithms (Cubic, BBR and the first Tonopah), the calls of the
-- TLS library, sockets, logs, the HTTP layer, the applications and the tests. They are the callers
-- of what is modelled here.
pub mod Common
pub mod Intformat
pub mod Bytestream
pub mod Frames
pub mod PacketNumber
pub mod Picohash
pub mod PortBlocking
pub mod Sacks
pub mod AckFrames
pub mod Cc
pub mod Newreno
pub mod Fastcc
pub mod NewTonopah
