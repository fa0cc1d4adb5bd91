-- ===== src/PortBlocking/Listed.antt =====
-- The loop over the blocked ports (picoquic/port_blocking.c) ends early, and still finds every port of
-- the list.
use fair_queuing_aware_conge.Common.{
  ℕ, ◌<◌, ◌≡◌, refl, inl, inr, Bool, true, false, List, [], ◌∷◌, ◌==◌, leb, ltb, ◌^◌, if◌then◌else◌,
  arith, Bool-cases,
}
use mathlib.Core.Path.{subst}
use fair_queuing_aware_conge.PortBlocking.{blocked_port_list, check_ports, check_port_blocked}

-- Whether a port is in a list, without the early end.
abbrev pub is_listed : ℕ → List ℕ → Bool
is_listed port [] = false
is_listed port (p ∷ ps) = let rest = is_listed port ps in if port == p then true else rest

-- Every port of the list is below the one before it, and the first below a bound.
abbrev IsBelow : ℕ → List ℕ → Type 0
IsBelow bound [] = Unit
IsBelow bound (p ∷ ps) = (ltb p bound ≡ true) × IsBelow p ps

abbrev is_below : ℕ → List ℕ → Bool
is_below bound [] = true
is_below bound (p ∷ ps) = let rest = is_below p ps in if ltb p bound then rest else false

is_below-IsBelow : (bound : ℕ) (ps : List ℕ) → is_below bound ps ≡ true → IsBelow bound ps
is_below-IsBelow bound [] h = tt
is_below-IsBelow bound (p ∷ ps) h = elim (Bool-cases (ltb p bound)) [
  | inl below ↦
      let rest = subst (λ (c : Bool). (if c then is_below p ps else false) ≡ true) below h in
      (below, is_below-IsBelow p ps rest)
  | inr above ↦ absurd (ground (arith, h, above))
]

is_listed-above : (port p : ℕ) (ps : List ℕ) → p < port → IsBelow p ps → is_listed port ps ≡ false
is_listed-above port p [] h below = refl
is_listed-above port p (q ∷ qs) h (b, below) =
    let lower : q < port = ground (arith, h, b) in
    let other : (port == q) ≡ false = ground (arith, lower) in
    rw other (is_listed-above port q qs lower below)

check_ports-is_listed :
    (port bound : ℕ) (ps : List ℕ) → IsBelow bound ps → check_ports port ps ≡ is_listed port ps
unfolding check_ports
check_ports-is_listed port bound [] d = refl
check_ports-is_listed port bound (p ∷ ps) (below, d) = elim (Bool-cases (leb port p)) [
  | inl early ↦ rw (early, check_ports-is_listed port p ps d) refl
  | inr late ↦
      let other : (port == p) ≡ false = ground (arith, late) in
      let rest = is_listed-above port p ps (ground (arith, late)) d in rw (late, other, rest) refl
]

-- A port is blocked exactly if it is in the list, though the loop ends at the first lower port.
pub check_port_blocked-is_listed :
    (port : ℕ) → check_port_blocked port ≡ is_listed port blocked_port_list
unfolding check_port_blocked
check_port_blocked-is_listed port =
    check_ports-is_listed port (2 ^ 16) blocked_port_list
      (is_below-IsBelow (2 ^ 16) blocked_port_list refl)
