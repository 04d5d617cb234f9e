-- ===== src/Route/Direction/Chooses.antt =====
-- The results of `choose_direction` of best_direction.rs.
use sol_arb_executor.Prelude.{
  ℕ, ◌≤◌, ◌<◌, ◌≡◌, ◌⊎◌, inl, inr, refl, Option, none, some, arith, leb, ltb, leb→le, ltb→lt,
  leb-false→lt, Bool-cases,
}
use sol_arb_executor.Errors.{
  ArbError, best_direction_quote_incomplete, no_profitable_direction, Result, ok, err,
}
use sol_arb_executor.Dynamic.Types.{SelectedDirection, pump_to_meteora, meteora_to_pump}
use sol_arb_executor.Route.Direction.{choose_direction, at_least, prefer}

-- An output that is missing or below a bound.
abbrev pub Below : ℕ → Option ℕ → Type 0
Below n none = Unit {0}
Below n (some out) = out < n

-- An output that is at least a bound and at least another output, or more than it.
abbrev pub Reaches : ℕ → Option ℕ → Type 0
Reaches n none = ⊥
Reaches n (some out) = n ≤ out

abbrev pub NotLess : Option ℕ → Option ℕ → Type 0
NotLess none b = ⊥
NotLess (some a) none = Unit {0}
NotLess (some a) (some b) = b ≤ a

abbrev pub More : Option ℕ → Option ℕ → Type 0
More none b = ⊥
More (some a) none = Unit {0}
More (some a) (some b) = b < a

abbrev pub IsQuoted : Option ℕ → Type 0
IsQuoted none = ⊥
IsQuoted (some a) = Unit {0}

-- What each result of the choice says of the two quotes.
abbrev pub Chooses : Option ℕ → Option ℕ → ℕ → Result ArbError SelectedDirection → Type 0
Chooses f r n (ok pump_to_meteora) = Reaches n f × NotLess f r
Chooses f r n (ok meteora_to_pump) = Reaches n r × More r f
Chooses f r n (err best_direction_quote_incomplete) = (f ≡ none) × (r ≡ none)
Chooses f r n (err no_profitable_direction) = Below n f × Below n r × (IsQuoted f ⊎ IsQuoted r)
Chooses f r n (err _) = ⊥

-- The choice is the direction with the larger output when that output is sufficient, Pump to
-- Meteora on a tie; it is "no profit" when some quote is complete and none is sufficient, an
-- incomplete quote when both are missing, and no other error.
pub choose_direction-Chooses : (f r : Option ℕ) (n : ℕ) → Chooses f r n (choose_direction f r n)
unfolding choose_direction at_least prefer
choose_direction-Chooses none none n = (refl, refl)
choose_direction-Chooses none (some b) n = elim (Bool-cases (leb n b)) [
  | inl h ↦ rw h (leb→le _ _ h, tt)
  | inr h ↦ rw h (tt, leb-false→lt _ _ h, inr tt)
]
choose_direction-Chooses (some a) none n = elim (Bool-cases (leb n a)) [
  | inl h ↦ rw h (leb→le _ _ h, tt)
  | inr h ↦ rw h (leb-false→lt _ _ h, tt, inl tt)
]
choose_direction-Chooses (some a) (some b) n = elim (Bool-cases (leb n a)) [
  | inl g ↦ elim (Bool-cases (leb n b)) [
    | inl h ↦ elim (Bool-cases (ltb a b)) [
      | inl l ↦ rw (g, h, l) (leb→le _ _ h, ltb→lt _ _ l)
      | inr l ↦ rw (g, h, l) (leb→le _ _ g, ground arith)
    ]
    | inr h ↦ rw (g, h) (leb→le _ _ g, ground arith)
  ]
  | inr g ↦ elim (Bool-cases (leb n b)) [
    | inl h ↦ rw (g, h) (leb→le _ _ h, ground arith)
    | inr h ↦ rw (g, h) (leb-false→lt _ _ g, leb-false→lt _ _ h, inl tt)
  ]
]
