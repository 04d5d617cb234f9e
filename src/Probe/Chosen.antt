-- ===== src/Probe/Chosen.antt =====
-- The choice among the rows against their quotes.
use mathlib.Core.Path.{subst}
use sol_arb_executor.Prelude.{
  ℕ, ◌+◌, ◌≤◌, ◌<◌, ◌≡◌, ◌⊎◌, refl, arith, List, [], ◌∷◌, Bool, true, false, Option, none, some,
  inl, inr, if◌then◌else◌, leb, ◌&&◌,
}
use sol_arb_executor.Errors.{QuoteError, Result, ok, err, ok-injective}
use sol_arb_executor.Word.{checked_sub}
use sol_arb_executor.Probe.{
  Row, Choice, exceeds, consider_output, consider_result, consider_row, choose_from, choose,
}

-- A row of the list quotes the output for the input, in the direction.
abbrev pub Quotes : List Row → ℕ → Bool → ℕ → Type 0
Quotes [] input reverse output = ⊥
Quotes (r ∷ rows) input reverse output =
    ((r.input ≡ input) × (if reverse then r.reverse else r.forward) ≡ ok output)
    ⊎ Quotes rows input reverse output

-- The gain from the input to the output is not above that of the choice, and without a choice it is
-- below the minimum.
abbrev pub IsCovered : ℕ → Option Choice → ℕ → ℕ → Type 0
IsCovered min_profit none input output = output < input + min_profit
IsCovered min_profit (some c) input output = output + c.input ≤ input + c.output

-- The choice gains the minimum.
abbrev pub IsEnough : ℕ → Option Choice → Type 0
IsEnough min_profit none = Unit {0}
IsEnough min_profit (some c) = c.input + min_profit ≤ c.output

-- A property of the choice's input, direction and output.
abbrev pub Holds : (ℕ → Bool → ℕ → Type 0) → Option Choice → Type 0
Holds P none = Unit {0}
Holds P (some c) = P c.input c.reverse c.output

consider_output-IsEnough :
    (m i : ℕ) (r : Bool) (o : ℕ) (best : Option Choice)
    → IsEnough m best
    → IsEnough m (consider_output m i r o best)
unfolding consider_output checked_sub
consider_output-IsEnough m i r o none h = ground arith
consider_output-IsEnough m i r o (some c) h = ground arith

consider_output-new :
    (m i : ℕ) (r : Bool) (o : ℕ) (best : Option Choice)
    → IsEnough m best
    → IsCovered m (consider_output m i r o best) i o
unfolding consider_output checked_sub
consider_output-new m i r o none h = ground arith
consider_output-new m i r o (some c) h = ground arith

consider_output-kept :
    (m i : ℕ) (r : Bool) (o : ℕ) (best : Option Choice) (x y : ℕ)
    → IsEnough m best
    → IsCovered m best x y
    → IsCovered m (consider_output m i r o best) x y
unfolding consider_output checked_sub
consider_output-kept m i r o none x y h k = ground arith
consider_output-kept m i r o (some c) x y h k = ground arith

-- The update with its test as a value.
Holds-replaced :
    (P : ℕ → Bool → ℕ → Type 0) (b : Bool) (best : Option Choice) (c : Choice)
    → P c.input c.reverse c.output
    → Holds P best
    → Holds P (if b then some c else best)
Holds-replaced P true best c p h = p
Holds-replaced P false best c p h = h

Holds-updated :
    (P : ℕ → Bool → ℕ → Type 0) (m : ℕ) (profit : Option ℕ) (best : Option Choice) (c : Choice)
    → P c.input c.reverse c.output
    → Holds P best
    → Holds P
        (elim profit [ none ↦ best | some n ↦ if leb m n && exceeds n best then some c else best ])
Holds-updated P m none best c p h = h
Holds-updated P m (some n) best c p h = Holds-replaced P (leb m n && exceeds n best) best c p h

consider_output-Holds :
    (P : ℕ → Bool → ℕ → Type 0) (m i : ℕ) (r : Bool) (o : ℕ) (best : Option Choice)
    → P i r o
    → Holds P best
    → Holds P (consider_output m i r o best)
unfolding consider_output
consider_output-Holds P m i r o best p h =
    Holds-updated P m (checked_sub o i) best (record { input = i; output = o; reverse = r }) p h

module _ (m i : ℕ) (r : Bool) where
  consider_result-IsEnough :
      (q : Result QuoteError ℕ) (best : Option Choice)
      → IsEnough m best
      → IsEnough m (consider_result m i r q best)
  consider_result-IsEnough (err _) best h = h
  consider_result-IsEnough (ok o) best h = consider_output-IsEnough m i r o best h

  consider_result-new :
      (q : Result QuoteError ℕ) (best : Option Choice) {o : ℕ}
      → IsEnough m best
      → q ≡ ok o
      → IsCovered m (consider_result m i r q best) i o
  consider_result-new (err _) best h e = cc
  consider_result-new (ok x) best h e =
      subst (IsCovered m (consider_output m i r x best) i) (ok-injective e)
        (consider_output-new m i r x best h)

  consider_result-kept :
      (q : Result QuoteError ℕ) (best : Option Choice) (x y : ℕ)
      → IsEnough m best
      → IsCovered m best x y
      → IsCovered m (consider_result m i r q best) x y
  consider_result-kept (err _) best x y h k = k
  consider_result-kept (ok o) best x y h k = consider_output-kept m i r o best x y h k

  consider_result-Holds :
      (P : ℕ → Bool → ℕ → Type 0) (q : Result QuoteError ℕ) (best : Option Choice)
      → ((o : ℕ) → q ≡ ok o → P i r o)
      → Holds P best
      → Holds P (consider_result m i r q best)
  consider_result-Holds P (err _) best p h = h
  consider_result-Holds P (ok o) best p h = consider_output-Holds P m i r o best (p o refl) h

module _ (m : ℕ) (row : Row) (best : Option Choice) where
  abbrev after_forward : Option Choice
  after_forward = consider_result m row.input false row.forward best

  consider_row-IsEnough : IsEnough m best → IsEnough m (consider_row m row best)
  unfolding consider_row
  consider_row-IsEnough h =
      consider_result-IsEnough m row.input true row.reverse after_forward
        (consider_result-IsEnough m row.input false row.forward best h)

  consider_row-kept :
      (x y : ℕ) → IsEnough m best → IsCovered m best x y → IsCovered m (consider_row m row best) x y
  unfolding consider_row
  consider_row-kept x y h k =
      consider_result-kept m row.input true row.reverse after_forward x y
        (consider_result-IsEnough m row.input false row.forward best h)
        (consider_result-kept m row.input false row.forward best x y h k)

  consider_row-new :
      (reverse : Bool) (o : ℕ)
      → IsEnough m best
      → (if reverse then row.reverse else row.forward) ≡ ok o
      → IsCovered m (consider_row m row best) row.input o
  unfolding consider_row
  consider_row-new true o h e =
      consider_result-new m row.input true row.reverse after_forward
        (consider_result-IsEnough m row.input false row.forward best h) e
  consider_row-new false o h e =
      consider_result-kept m row.input true row.reverse after_forward row.input o
        (consider_result-IsEnough m row.input false row.forward best h)
        (consider_result-new m row.input false row.forward best h e)

choose_from-IsEnough :
    (rows : List Row) (m : ℕ) (best : Option Choice)
    → IsEnough m best
    → IsEnough m (choose_from rows m best)
unfolding choose_from
choose_from-IsEnough [] m best h = h
choose_from-IsEnough (row ∷ rows) m best h =
    choose_from-IsEnough rows m (consider_row m row best) (consider_row-IsEnough m row best h)

choose_from-kept :
    (rows : List Row) (m : ℕ) (best : Option Choice) (x y : ℕ)
    → IsEnough m best
    → IsCovered m best x y
    → IsCovered m (choose_from rows m best) x y
unfolding choose_from
choose_from-kept [] m best x y h k = k
choose_from-kept (row ∷ rows) m best x y h k =
    choose_from-kept rows m (consider_row m row best) x y (consider_row-IsEnough m row best h)
      (consider_row-kept m row best x y h k)

choose_from-IsCovered :
    (rows : List Row) (m : ℕ) (best : Option Choice) (x : ℕ) (r : Bool) (y : ℕ)
    → IsEnough m best
    → Quotes rows x r y
    → IsCovered m (choose_from rows m best) x y
unfolding choose_from
choose_from-IsCovered [] m best x r y h k = elim k [ ]
choose_from-IsCovered (row ∷ rows) m best x r y h (inl (same, quoted)) =
    choose_from-kept rows m (consider_row m row best) x y (consider_row-IsEnough m row best h) (
      subst (λ i. IsCovered m (consider_row m row best) i y) same
        (consider_row-new m row best r y h quoted))
choose_from-IsCovered (row ∷ rows) m best x r y h (inr later) =
    choose_from-IsCovered rows m (consider_row m row best) x r y
      (consider_row-IsEnough m row best h) later

choose_from-Holds :
    (P : ℕ → Bool → ℕ → Type 0) (rows : List Row) (m : ℕ) (best : Option Choice)
    → ((x : ℕ) (r : Bool) (y : ℕ) → Quotes rows x r y → P x r y)
    → Holds P best
    → Holds P (choose_from rows m best)
unfolding choose_from consider_row
choose_from-Holds P [] m best p h = h
choose_from-Holds P (row ∷ rows) m best p h =
    choose_from-Holds P rows m (consider_row m row best) (λ x r y k. p x r y (inr k))
      (consider_result-Holds m row.input true P row.reverse
        (consider_result m row.input false row.forward best)
        (λ o e. p row.input true o (inl (refl, e)))
        (consider_result-Holds m row.input false P row.forward best
          (λ o e. p row.input false o (inl (refl, e))) h))

-- For all rows and every minimum: a choice is an output that its row quotes in its direction, it
-- gains at least the minimum, and no output that any row quotes in either direction gains more.
-- Without a choice, every output that is quoted stays below its input plus the minimum.
pub choose-IsCovered :
    (rows : List Row) (min_profit : ℕ)
    → Holds (Quotes rows) (choose rows min_profit)
      × IsEnough min_profit (choose rows min_profit)
      × ((input : ℕ) (reverse : Bool) (output : ℕ)
          → Quotes rows input reverse output
          → IsCovered min_profit (choose rows min_profit) input output)
unfolding choose
choose-IsCovered rows min_profit = (
  choose_from-Holds (Quotes rows) rows min_profit none (λ x r y k. k) tt,
  choose_from-IsEnough rows min_profit none tt,
  λ x r y k. choose_from-IsCovered rows min_profit none x r y tt k,
)
