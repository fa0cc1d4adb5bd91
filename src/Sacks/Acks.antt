-- ===== src/Sacks/Acks.antt =====
-- The sack list and the acknowledgements that are sent of it (picoquic/sacks.c): its ends, the ranges
-- to send, acknowledged acknowledgements, and the recording of a received packet.
use fair_queuing_aware_conge.Common.{
  ℕ, zero, suc, ◌+◌, Bool, true, false, ◌&&◌, List, [], ◌∷◌, ◌++◌, Option, none, some, length, ltb,
  ◌==◌, if◌then◌else◌, add64, u64_max,
}
use fair_queuing_aware_conge.Common.Int.{ℤ, pos, ◌+ℤ◌, ◌-ℤ◌, ltb_ℤ, leb_ℤ}
use fair_queuing_aware_conge.Sacks.{
  max_ack_range_repeat, SackItem, RangeCounts, SackList, Splay, uncount, record_sent,
  find_range_below_number, insert_item,
}
use fair_queuing_aware_conge.Sacks.Operations.{update_sack_list}

abbrev pub no_counts : RangeCounts
no_counts r i = pos 0

-- picoquic_sack_list_init
unfoldable pub sack_list_init : SackList
sack_list_init = record { items = []; ack_horizon = 0; horizon_delay = pos 0; rc = no_counts }

-- picoquic_sack_list_free
unfoldable pub sack_list_free : SackList → SackList
sack_list_free s = record s { items = []; rc = no_counts }

unfoldable pub sack_list_is_empty : SackList → Bool
sack_list_is_empty s = length s.items == 0

unfoldable pub sack_list_size : SackList → ℕ
sack_list_size s = length s.items

-- picoquic_sack_list_first and _last
unfoldable pub first_number : List SackItem → ℕ
first_number [] = u64_max
first_number (x ∷ xs) = x.start_of_sack_range

unfoldable pub last_number : List SackItem → ℕ
last_number [] = 0
last_number (x ∷ []) = x.end_of_sack_range
last_number (x ∷ (y ∷ xs)) = last_number (y ∷ xs)

-- picoquic_sack_list_first_range: the second item
unfoldable pub first_range : List SackItem → Option SackItem
first_range [] = none
first_range (x ∷ []) = none
first_range (x ∷ (y ∷ xs)) = some y

-- picoquic_sack_delete_item, of the node at a place
unfoldable pub delete_item : SackList → List SackItem → SackItem → List SackItem → SackList
delete_item s front x back = record s { items = front ++ back; rc = uncount x s.rc }

-- picoquic_sack_item_record_sent, of the node at a place, and its counts
unfoldable pub count_sent : Bool → SackItem → RangeCounts → RangeCounts
count_sent is_opportunistic x rc r i =
    let counted = uncount x rc in
    if (if is_opportunistic then r else (if r then false else true))
    then (if (x.nb_times_sent r + 1 == i) && ltb i max_ack_range_repeat
        then counted r i +ℤ pos 1
        else counted r i)
    else rc r i

unfoldable pub item_record_sent :
    Bool → SackList → List SackItem → SackItem → List SackItem → SackList
item_record_sent is_opportunistic s front x back = record s {
  items = front ++ (record_sent is_opportunistic x ∷ back);
  rc = count_sent is_opportunistic x s.rc;
}

-- An item whose acknowledgement is acknowledged where there is a horizon: it is not sent again.
unfoldable pub sent_enough : SackItem → SackItem
sent_enough x = record x {
  nb_times_sent = λ r.
      if ltb (x.nb_times_sent r) max_ack_range_repeat
      then max_ack_range_repeat
      else x.nb_times_sent r;
}

-- The last range is cut at its start, but never to nothing.
unfoldable pub cut_start : ℕ → SackItem → SackItem
cut_start end_of_range x = record x {
  start_of_sack_range =
      if ltb end_of_range x.end_of_sack_range then add64 end_of_range 1 else x.end_of_sack_range;
}

-- A range that is not the last one, and matches.
unfoldable pub forget : SackList → List SackItem → SackItem → List SackItem → SackList
forget s front x back =
    if ltb_ℤ (pos 0) s.horizon_delay
    then record s { items = front ++ (sent_enough x ∷ back); rc = uncount x s.rc }
    else delete_item s front x back

unfoldable pub process_at :
    SackList → List SackItem → Option SackItem → List SackItem → ℕ → ℕ → SackList
process_at s front none back start_of_range end_of_range = s
process_at s front (some x) [] start_of_range end_of_range =
    if x.start_of_sack_range == start_of_range
    then record s { items = front ++ (cut_start end_of_range x ∷ []) }
    else s
process_at s front (some x) (next ∷ back) start_of_range end_of_range =
    if (x.start_of_sack_range == start_of_range) && (x.end_of_sack_range == end_of_range)
    then forget s front x (next ∷ back)
    else s

-- The loop of `picoquic_sack_select_ack_ranges` over the rounds that are left: nb_sent_max and
-- nb_sent_max_skip.
unfoldable pub select_loop : (ℕ → ℤ) → ℕ → ℤ → ℕ → ℕ → ℤ → ℕ × ℤ
select_loop range_counts first_sack_count max_ranges zero i cumul_sent =
    (max_ack_range_repeat, pos 0)
select_loop range_counts first_sack_count max_ranges (suc rounds) i cumul_sent =
    let sum = cumul_sent +ℤ range_counts i in
    let cumul = if i == first_sack_count then sum -ℤ pos 1 else sum in
    let later = select_loop range_counts first_sack_count max_ranges rounds (i + 1) cumul in
    if leb_ℤ max_ranges cumul then (i, cumul -ℤ max_ranges) else later

-- picoquic_sack_select_ack_ranges; the item is NULL or one of the list.
unfoldable pub select_ack_ranges : SackList → Option SackItem → ℤ → Bool → ℕ × ℤ
select_ack_ranges s first_sack max_ranges is_opportunistic =
    let first_sack_count : ℕ = elim first_sack [
      | none ↦ max_ack_range_repeat
      | some x ↦ x.nb_times_sent is_opportunistic
    ] in
    select_loop (s.rc is_opportunistic) first_sack_count max_ranges max_ack_range_repeat 0 (pos 0)

-- picoquic_ack_context_track_t
pub record AckTracking : Type 0 where
  pub highest_ack_sent : ℕ
  pub highest_ack_sent_time : ℕ
  pub time_oldest_unack_packet_received : ℕ
  pub ack_needed : Bool
  pub ack_after_fin : Bool
  pub out_of_order_received : Bool

-- picoquic_ack_context_t without its sack list, which goes beside it, and the key rotation; `act` is an
-- array of two, for acknowledgements that are due (`false`) and opportunistic ones (`true`).
pub record AckContext : Type 0 where
  pub time_stamp_largest_received : ℕ
  pub act : Bool → AckTracking
  pub ecn_ect0_total_local : ℕ
  pub ecn_ect1_total_local : ℕ
  pub ecn_ce_total_local : ℕ
  pub sending_ecn_ack : Bool

-- What `picoquic_record_pn_received` notes in the context before it updates the list.
unfoldable pub note_arrival : AckContext → SackList → ℕ → ℕ → AckContext
note_arrival c s pn64 current_microsec =
    let last = last_number s.items in
    if sack_list_is_empty s
    then record c { time_stamp_largest_received = current_microsec }
    else (if ltb last pn64
        then record c {
          time_stamp_largest_received = current_microsec;
          act = λ r.
              if ltb (add64 last 1) pn64
              then record (c.act r) { out_of_order_received = true }
              else c.act r;
        }
        else record c {
          act = λ r.
              if (c.act r).ack_needed && ltb pn64 ((c.act r).highest_ack_sent)
              then record (c.act r) { out_of_order_received = true }
              else c.act r;
        })

module _ (t : Splay) where
  -- picoquic_sack_list_reset
  unfoldable pub sack_list_reset : Bool → SackList → ℕ → ℕ → ℕ → SackList × ℤ
  sack_list_reset allocated s range_min range_max current_time =
      insert_item t allocated (sack_list_free s) range_min range_max current_time

  -- picoquic_process_ack_of_ack_range
  unfoldable pub process_ack_of_ack_range : SackList → ℕ → ℕ → SackList
  process_ack_of_ack_range s start_of_range end_of_range =
      let p = find_range_below_number t s start_of_range in
      process_at s p.front p.node p.back start_of_range end_of_range

  -- picoquic_record_pn_received, with the sack list of the packet's context
  unfoldable pub record_pn_received :
      Bool → AckContext → SackList → ℕ → ℕ → AckContext × SackList × ℤ
  record_pn_received allocated c s pn64 current_microsec =
      let (updated, ret) = update_sack_list t allocated s pn64 pn64 current_microsec in
      (note_arrival c s pn64 current_microsec, updated, ret)
