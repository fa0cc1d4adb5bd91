-- ===== src/AckFrames/Written.antt =====
-- The loop over the ranges of an ACK frame (picoquic/frames.c, `picoquic_format_ack_frame_in_context`):
-- which ranges it writes, and what becomes of the list.
use fair_queuing_aware_conge.Common.{
  ℕ, ◌+◌, ◌-◌, ◌≤◌, ◌≡◌, refl, sym, ◌∙◌, ap, inl, inr, Bool, true, false, ◌||◌, List, [], ◌∷◌,
  Option, none, some, length, ltb, ltb→lt, arith, Bool-cases,
}
use mathlib.Core.List.{reverse, reverse_aux, reverse_aux-eq}
use fair_queuing_aware_conge.Common.Int.{ℤ, pos, ◌-ℤ◌}
use fair_queuing_aware_conge.Sacks.{SackItem, SackList, Splay, record_sent}
use fair_queuing_aware_conge.Sacks.Acks.{item_record_sent}
use fair_queuing_aware_conge.Sacks.Ranges.{within, holds}
use fair_queuing_aware_conge.Sacks.Reached.{Reached, sent}
use fair_queuing_aware_conge.AckFrames.{
  AckBlocks, GoOn, Choice, pass, skip, send, choose, ack_block, block_before, no_more, send_block,
  ack_item, ack_blocks,
}
use fair_queuing_aware_conge.AckFrames.Blocks.{IsDown, IsBlocks, no_block, a_block}

-- Some of the ranges of a list, in its order; the items of the list may have been sent since.
pub data IsPicked : List SackItem → List SackItem → Type 0 where
  no_range : (xs : List SackItem) → IsPicked [] xs
  passed_over :
      (picked : List SackItem) (x : SackItem) (xs : List SackItem)
      → IsPicked picked xs
      → IsPicked picked (x ∷ xs)
  picked_up :
      (picked : List SackItem) (x y : SackItem) (xs : List SackItem)
      → y.start_of_sack_range ≡ x.start_of_sack_range
      → y.end_of_sack_range ≡ x.end_of_sack_range
      → IsPicked picked xs
      → IsPicked (x ∷ picked) (y ∷ xs)

pub IsDown-weaken :
    (lowest lowest' : ℕ) (xs : List SackItem)
    → lowest ≤ lowest'
    → IsDown lowest xs
    → IsDown lowest' xs
IsDown-weaken lowest lowest' [] le h = tt
IsDown-weaken lowest lowest' (x ∷ xs) le (a, b, c) = (omega arith, b, c)

module _ (t : Splay) where
  -- What the loop has written of the ranges `previous`, below `lowest` and behind `num_block` blocks, where
  -- the list `s` has the items `behind` behind them.
  pub record Written (s : SackList) (previous behind : List SackItem) (lowest num_block : ℕ)
      (r : AckBlocks) : Type 0 where
    pub picked : List SackItem
    pub now : List SackItem
    pub items : r.list.items ≡ reverse_aux now behind
    pub some_of : IsPicked picked now
    pub same : (n : ℕ) → holds now n ≡ holds previous n
    pub blocks : IsBlocks lowest picked r.written
    pub down : IsDown lowest picked
    pub count : r.num_block ≡ length picked
    pub few : num_block + r.num_block ≤ 32
    pub reached : Reached t s → Reached t r.list
    pub delay : r.list.horizon_delay ≡ s.horizon_delay

  nothing-Written :
      (s : SackList) (previous behind : List SackItem) (lowest num_block : ℕ) (no_room : Bool)
      → s.items ≡ reverse_aux previous behind
      → num_block ≤ 32
      → Written s previous behind lowest num_block (no_more s no_room)
  unfolding no_more
  nothing-Written s previous behind lowest num_block no_room whole few = record {
    picked = [];
    now = previous;
    items = whole;
    some_of = no_range previous;
    same = λ n. refl;
    blocks = no_block lowest;
    down = tt;
    count = refl;
    few = omega (arith, few);
    reached = λ h. h;
    delay = refl;
  }

  pass-Written :
      (s : SackList) (x : SackItem) (previous behind : List SackItem) (lowest num_block : ℕ)
      (r : AckBlocks)
      → Written s previous (x ∷ behind) lowest num_block r
      → Written s (x ∷ previous) behind lowest num_block r
  pass-Written s x previous behind lowest num_block r w = record {
    picked = w.picked;
    now = x ∷ w.now;
    items = w.items;
    some_of = passed_over (w.picked) x (w.now) (w.some_of);
    same = λ n. ap (λ b. within x.start_of_sack_range x.end_of_sack_range n || b) (w.same n);
    blocks = w.blocks;
    down = w.down;
    count = w.count;
    few = w.few;
    reached = w.reached;
    delay = w.delay;
  }

  -- The list in which an item has been recorded as sent.
  pub sent_whole :
      (opp : Bool) (s : SackList) (x : SackItem) (previous behind : List SackItem)
      → (item_record_sent opp s (reverse previous) x behind).items
        ≡ reverse_aux previous (record_sent opp x ∷ behind)
  unfolding item_record_sent
  sent_whole opp s x previous behind = sym (reverse_aux-eq previous (record_sent opp x ∷ behind))

  pub sent-Reached :
      (opp : Bool) (s : SackList) (x : SackItem) (previous behind : List SackItem)
      → s.items ≡ reverse_aux previous (x ∷ behind)
      → Reached t s
      → Reached t (item_record_sent opp s (reverse previous) x behind)
  sent-Reached opp s x previous behind whole h =
      sent s opp (reverse previous) x behind h (whole ∙ reverse_aux-eq previous (x ∷ behind))

  send-Written :
      (opp : Bool) (s : SackList) (x : SackItem) (previous behind : List SackItem)
      (lowest num_block room : ℕ) (block : List ℕ) (r : AckBlocks)
      → s.items ≡ reverse_aux previous (x ∷ behind)
      → IsDown lowest (x ∷ previous)
      → ack_block lowest x room ≡ some block
      → Written
          (item_record_sent opp s (reverse previous) x behind)
          previous
          (record_sent opp x ∷ behind)
          x.start_of_sack_range
          (num_block + 1)
          r
      → Written s (x ∷ previous) behind lowest num_block (block_before block r)
  unfolding block_before record_sent item_record_sent
  send-Written opp s x previous behind lowest num_block room block r whole (a, b, c) h w = record {
    picked = x ∷ w.picked;
    now = record_sent opp x ∷ w.now;
    items = w.items;
    some_of = picked_up (w.picked) x (record_sent opp x) (w.now) refl refl (w.some_of);
    same = λ n. ap (λ b. within x.start_of_sack_range x.end_of_sack_range n || b) (w.same n);
    blocks = a_block lowest room x (w.picked) block (r.written) h (w.blocks);
    down = (a, b, w.down);
    count = omega (arith, w.count);
    few = omega (arith, w.few);
    reached = λ k. w.reached (sent-Reached opp s x previous behind whole k);
    delay = w.delay;
  }

  send_block-Written :
      (opp : Bool) (max_skip : ℤ) (s : SackList) (x : SackItem) (previous behind : List SackItem)
      (lowest num_block room : ℕ) (go_on : GoOn) (block : Option (List ℕ))
      → s.items ≡ reverse_aux previous (x ∷ behind)
      → IsDown lowest (x ∷ previous)
      → num_block ≤ 32
      → ack_block lowest x room ≡ block
      → ((room' : ℕ)
          → Written
              (item_record_sent opp s (reverse previous) x behind)
              previous
              (record_sent opp x ∷ behind)
              x.start_of_sack_range
              (num_block + 1)
              (go_on max_skip room' x.start_of_sack_range
                (num_block + 1)
                (item_record_sent opp s (reverse previous) x behind)
                (record_sent opp x)))
      → Written s
          (x ∷ previous)
          behind
          lowest
          num_block
          (send_block opp max_skip room num_block s previous x behind go_on block)
  unfolding send_block
  send_block-Written opp max_skip s x previous behind lowest num_block room go_on none whole down
        few h w =
      nothing-Written s (x ∷ previous) behind lowest num_block true whole few
  send_block-Written opp max_skip s x previous behind lowest num_block room go_on (some block) whole
        down few h w =
      send-Written opp s x previous behind lowest num_block room block _ whole down h
        (w (room - length block))

  ack_item-Written :
      (opp : Bool) (max_skip : ℤ) (s : SackList) (x : SackItem) (previous behind : List SackItem)
      (lowest num_block room : ℕ) (go_on : GoOn) (choice : Choice)
      → s.items ≡ reverse_aux previous (x ∷ behind)
      → IsDown lowest (x ∷ previous)
      → num_block ≤ 32
      → ((max_skip' : ℤ)
          → Written s previous
              (x ∷ behind)
              lowest
              num_block
              (go_on max_skip' room lowest num_block s x))
      → ((room' : ℕ)
          → Written
              (item_record_sent opp s (reverse previous) x behind)
              previous
              (record_sent opp x ∷ behind)
              x.start_of_sack_range
              (num_block + 1)
              (go_on max_skip room' x.start_of_sack_range
                (num_block + 1)
                (item_record_sent opp s (reverse previous) x behind)
                (record_sent opp x)))
      → Written s
          (x ∷ previous)
          behind
          lowest
          num_block
          (ack_item opp max_skip room lowest num_block s previous x behind go_on choice)
  unfolding ack_item
  ack_item-Written opp max_skip s x previous behind lowest num_block room go_on pass whole down few
        over on =
      pass-Written s x previous behind lowest num_block _ (over max_skip)
  ack_item-Written opp max_skip s x previous behind lowest num_block room go_on skip whole down few
        over on =
      pass-Written s x previous behind lowest num_block _ (over (max_skip -ℤ pos 1))
  ack_item-Written opp max_skip s x previous behind lowest num_block room go_on send whole down few
        over on =
      send_block-Written opp max_skip s x previous behind lowest num_block room go_on
        (ack_block lowest x room) whole down few refl on

  -- The loop writes some of the ranges that are left, from the highest down, and the list keeps them.
  pub ack_blocks-Written :
      (opp : Bool) (max_acked : ℕ) (max_skip : ℤ) (room lowest num_block : ℕ) (s : SackList)
      (previous behind : List SackItem)
      → s.items ≡ reverse_aux previous behind
      → IsDown lowest previous
      → num_block ≤ 32
      → Written s previous behind lowest num_block
          (ack_blocks opp max_acked max_skip room lowest num_block s previous behind)
  unfolding ack_blocks
  ack_blocks-Written opp max_acked max_skip room lowest num_block s [] behind whole down few =
      nothing-Written s [] behind lowest num_block false whole few
  ack_blocks-Written opp max_acked max_skip room lowest num_block s (x ∷ previous) behind whole
        (a, b, c) few =
      elim (Bool-cases (ltb num_block 32)) [
        | inr full ↦
            rw full (nothing-Written s (x ∷ previous) behind lowest num_block false whole few)
        | inl more ↦ rw more (
            ack_item-Written opp max_skip s x previous behind lowest num_block room
              (λ max_skip room lowest num_block s item.
                ack_blocks opp max_acked max_skip room lowest num_block s previous (item ∷ behind))
              (choose opp max_acked max_skip x) whole (a, b, c) few
              (λ max_skip'.
                ack_blocks-Written opp max_acked max_skip' room lowest num_block s previous
                  (x ∷ behind) whole
                  (IsDown-weaken x.start_of_sack_range lowest previous (omega arith) c) few)
              (λ room'.
                ack_blocks-Written opp max_acked max_skip room' x.start_of_sack_range
                  (num_block + 1) (item_record_sent opp s (reverse previous) x behind) previous
                  (record_sent opp x ∷ behind) (sent_whole opp s x previous behind) c
                  (omega (arith, ltb→lt num_block 32 more))))
      ]
