-- ===== src/Sacks/Counts.antt =====
-- The accounting of a sack list: for 0 to 3, range_counts says how many items have been sent so often.
use fair_queuing_aware_conge.Common.{
  ℕ, ◌+◌, ◌<◌, ◌≤◌, ◌^◌, ◌≡◌, refl, sym, ◌∙◌, ap, inl, inr, Bool, true, List, [], ◌∷◌, ◌++◌, some,
  All-append, append_assoc, add64, ltb, ◌==◌, if◌then◌else◌, arith, Bool-cases, sub64,
}
use fair_queuing_aware_conge.Common.Int.{ℤ, pos, ◌+ℤ◌, ◌-ℤ◌, ltb_ℤ}
use fair_queuing_aware_conge.Sacks.{
  SackItem, SackList, RangeCounts, Splay, new_item, record_reset, count_reset, uncount, count_new,
  find_range_below_number, max_ack_range_repeat,
}
use fair_queuing_aware_conge.Sacks.Operations.{
  Pass, close_pass, merge_next, extend, extend_down, with_pass, update_at, update_sack_list,
  finish_update, is_out_of_date, horizon_loop, update_ack_horizon,
}
use fair_queuing_aware_conge.Sacks.Ranges.{IsFrom, AtMost, Cut, cut_items, find-nothing, find-cut}
use fair_queuing_aware_conge.Sacks.Passes.{above_pass}
use fair_queuing_aware_conge.Sacks.Inserts.{update_above-pass}

-- How many items have been sent `i` times.
abbrev pub tally : Bool → ℕ → List SackItem → ℕ
tally r i [] = 0
tally r i (x ∷ xs) = (if x.nb_times_sent r == i then 1 else 0) + tally r i xs

-- The counts say so for the items, and `k` others.
abbrev pub Counts : RangeCounts → Bool → ℕ → ℕ → List SackItem → Type 0
Counts rc r i k items = rc r i ≡ pos (k + tally r i items)

pub record IsCounted (s : SackList) : Type 0 where
  pub counted : (r : Bool) (i : ℕ) → i < max_ack_range_repeat → Counts s.rc r i 0 s.items

pub tally-append :
    (r : Bool) (i : ℕ) (xs ys : List SackItem) → tally r i (xs ++ ys) ≡ tally r i xs + tally r i ys
tally-append r i [] ys = omega arith
tally-append r i (x ∷ xs) ys = omega (arith, tally-append r i xs ys)

pub uncount-Counts :
    (rc : RangeCounts) (r : Bool) (i k : ℕ) (x : SackItem) (xs : List SackItem)
    → i < max_ack_range_repeat
    → Counts rc r i k (x ∷ xs)
    → Counts (uncount x rc) r i k xs
unfolding uncount ◌-ℤ◌
uncount-Counts rc r i k x xs h e = ground arith

pub count_new-Counts :
    (rc : RangeCounts) (r : Bool) (i k : ℕ) (xs : List SackItem)
    → Counts rc r i k xs
    → Counts (count_new rc) r i ((if 0 == i then 1 else 0) + k) xs
unfolding count_new ◌+ℤ◌
count_new-Counts rc r i k xs e = ground arith

pub count_reset-Counts :
    (rc : RangeCounts) (r : Bool) (i k : ℕ) (x : SackItem) (xs : List SackItem)
    → i < max_ack_range_repeat
    → Counts rc r i k (x ∷ xs)
    → Counts (count_reset x rc) r i ((if 0 == i then 1 else 0) + k) xs
unfolding count_reset
count_reset-Counts rc r i k x xs h e =
    count_new-Counts (uncount x rc) r i k xs (uncount-Counts rc r i k x xs h e)

-- A pass keeps the account.
extend-Counts :
    (r : Bool) (i k hi now : ℕ) (back : List SackItem) (x : SackItem) (rc : RangeCounts) (ret : ℤ)
    → i < max_ack_range_repeat
    → Counts rc r i k (x ∷ back)
    → Counts
        (extend hi now x back rc ret).rc
        r
        i
        k
        ((extend hi now x back rc ret).node ∷ (extend hi now x back rc ret).back)
unfolding extend close_pass record_reset
extend-Counts r i k hi now [] x rc ret h e = elim (Bool-cases (ltb x.end_of_sack_range hi)) [
  | inl short ↦ rw short (count_reset-Counts rc r i k x [] h e ∙ ap pos (omega arith))
  | inr covered ↦ rw covered e
]
extend-Counts r i k hi now (next ∷ back) x rc ret h e =
    let reset = count_reset-Counts rc r i k x (next ∷ back) h e in
    let gone =
      uncount-Counts (count_reset x rc) r i ((if 0 == i then 1 else 0) + k) next back h reset in
    let ih =
      extend-Counts r i k hi now back (merge_next x next) (uncount next (count_reset x rc)) (pos 0)
        h (unfold merge_next record_reset in gone ∙ ap pos (omega arith)) in
    elim (Bool-cases (ltb x.end_of_sack_range hi)) [
      | inr covered ↦ rw covered e
      | inl short ↦ elim (Bool-cases (ltb hi (sub64 next.start_of_sack_range 1))) [
        | inl apart ↦ rw (short, apart) (reset ∙ ap pos (omega arith))
        | inr touches ↦ rw (short, touches) ih
      ]
    ]

above_pass-Counts :
    (r : Bool) (i k lo hi now : ℕ) (back : List SackItem) (rc : RangeCounts)
    → i < max_ack_range_repeat
    → Counts rc r i k back
    → Counts
        (above_pass rc lo hi now back).rc
        r
        i
        k
        ((above_pass rc lo hi now back).node ∷ (above_pass rc lo hi now back).back)
unfolding above_pass new_item
above_pass-Counts r i k lo hi now [] rc h e = count_new-Counts rc r i k [] e ∙ ap pos (omega arith)
above_pass-Counts r i k lo hi now (next ∷ back) rc h e =
    elim (Bool-cases (ltb hi (sub64 next.start_of_sack_range 1))) [
      | inl apart ↦ rw apart (count_new-Counts rc r i k (next ∷ back) e ∙ ap pos (omega arith))
      | inr touches ↦ rw touches (
          extend-Counts r i k hi now back (extend_down lo now next) (count_reset next rc) (pos 0) h
            (unfold extend_down record_reset in
              count_reset-Counts rc r i k next back h e ∙ ap pos (omega arith)))
    ]

-- The loop that raises the horizon keeps the account.
pub horizon_loop-Counts :
    (r : Bool) (i k : ℕ) (delay : ℤ) (now : ℕ) (items : List SackItem) (horizon : ℕ)
    (rc : RangeCounts)
    → i < max_ack_range_repeat
    → Counts rc r i k items
    → let (items', horizon', rc') = horizon_loop delay now items horizon rc in
      Counts rc' r i k items'
unfolding horizon_loop
horizon_loop-Counts r i k delay now [] horizon rc h e = e
horizon_loop-Counts r i k delay now (x ∷ []) horizon rc h e = e
horizon_loop-Counts r i k delay now (x ∷ (y ∷ rest)) horizon rc h e =
    elim (Bool-cases (is_out_of_date delay now x)) [
      | inr kept ↦ rw kept e
      | inl gone ↦ rw gone (
          horizon_loop-Counts r i k delay now (y ∷ rest) (add64 x.end_of_sack_range 1)
            (uncount x rc) h (uncount-Counts rc r i k x (y ∷ rest) h e))
    ]

with_pass-IsCounted :
    (s : SackList) (front tail : List SackItem) (e : Pass)
    → s.items ≡ front ++ tail
    → ((r : Bool) (i k : ℕ)
        → i < max_ack_range_repeat
        → Counts s.rc r i k tail
        → Counts e.rc r i k (e.node ∷ e.back))
    → IsCounted s
    → IsCounted (with_pass s front e).0
with_pass-IsCounted s front tail e whole f h = record {
  counted = λ r i lt.
      f r i (tally r i front) lt (
        h.counted r i lt
        ∙ ap pos
            (ap (λ items. 0 + tally r i items) whole ∙ omega (arith, tally-append r i front tail)))
      ∙ ap pos (omega (arith, tally-append r i front (e.node ∷ e.back)));
}

module _ (t : Splay) where
  update_cut-IsCounted :
      (s : SackList) (lo hi now : ℕ)
      → hi < 2 ^ 62
      → lo ≤ hi
      → (c : Cut lo s.items) → IsCounted s
      → IsCounted (update_at t true s (c.front) (some (c.node)) (c.back) lo hi now).0
  unfolding update_at
  update_cut-IsCounted s lo hi now small le c h =
      let x = c.node in
      let whole = c.whole ∙ sym (append_assoc (c.front) (x ∷ []) (c.back)) in
      elim (Bool-cases (ltb (add64 x.end_of_sack_range 1) lo)) [
        | inl apart ↦ rw apart (
            rw
              (update_above-pass t s (c.front ++ (x ∷ [])) (c.back) lo hi now (omega arith) whole
                (All-append (AtMost lo) (c.front) (x ∷ []) (c.low) (c.reached, tt)) (c.high))
              (with_pass-IsCounted s (c.front ++ (x ∷ [])) (c.back)
                (above_pass s.rc lo hi now (c.back)) whole
                (λ r i k lt e. above_pass-Counts r i k lo hi now (c.back) s.rc lt e) h))
        | inr near ↦ rw near (
            with_pass-IsCounted s (c.front) (x ∷ c.back) (extend hi now x (c.back) s.rc (pos 1))
              (c.whole) (λ r i k lt e. extend-Counts r i k hi now (c.back) x s.rc (pos 1) lt e) h)
      ]

  update_at-IsCounted :
      (s : SackList) (b lo hi now : ℕ)
      → IsFrom b s.items
      → lo ≤ hi
      → hi < 2 ^ 62
      → IsCounted s
      → let p = find_range_below_number t s lo in
        IsCounted (update_at t true s p.front p.node p.back lo hi now).0
  unfolding update_at
  update_at-IsCounted s b lo hi now h le small counted = elim (cut_items lo b s.items h) [
    | inl above ↦
        rw
          (
            find-nothing t s lo (omega arith) above,
            update_above-pass t s [] s.items lo hi now (omega arith) refl tt above,
          )
          (with_pass-IsCounted s [] s.items (above_pass s.rc lo hi now s.items) refl
            (λ r i k lt e. above_pass-Counts r i k lo hi now s.items s.rc lt e) counted)
    | inr cut ↦
        rw (find-cut t s lo (omega arith) cut)
          (update_cut-IsCounted s lo hi now small le cut counted)
  ]

  finish_update-IsCounted :
      (now : ℕ) (s : SackList) (ret : ℤ) → IsCounted s → IsCounted (finish_update now (s, ret)).0
  unfolding finish_update update_ack_horizon
  finish_update-IsCounted now s ret h = elim (Bool-cases (ltb_ℤ (pos 0) s.horizon_delay)) [
    | inr off ↦ rw off h
    | inl on ↦ rw on (record {
      counted = λ r i lt.
          horizon_loop-Counts r i 0 s.horizon_delay now s.items s.ack_horizon s.rc lt
            (h.counted r i lt);
    })
  ]

  -- An update keeps the account of how often the ranges have been sent, with a horizon and without.
  pub update_sack_list-IsCounted :
      (s : SackList) (b lo hi now : ℕ)
      → IsFrom b s.items
      → lo ≤ hi
      → hi < 2 ^ 62
      → IsCounted s
      → IsCounted (update_sack_list t true s lo hi now).0
  unfolding update_sack_list
  update_sack_list-IsCounted s b lo hi now h le small counted =
      let p = find_range_below_number t s lo in
      let r = update_at t true s p.front p.node p.back lo hi now in
      finish_update-IsCounted now (r.0) (r.1) (update_at-IsCounted s b lo hi now h le small counted)
