-- ===== src/Dynamic/Curve/Lookup.antt =====
-- The binary search of `DlmmCurve::quote` in dynamic_amount.rs against a scan of the segments.
use native.Mathlib.Decide.{dec_lt}
use sol_arb_executor.Prelude.{
  ℕ, zero, suc, ◌+◌, ◌-◌, ◌/◌, ◌≤◌, ◌<◌, ◌≡◌, refl, arith, List, [], ◌∷◌, length, get_elem?, find?,
  leb, ltb, Bool-cases, inl, inr, ◌==◌, if◌then◌else◌, le→leb, lt→leb, ltb→lt, leb→le, leb-false→lt,
}
use sol_arb_executor.Errors.{err, ok_or, ◌>>=◌, invalid_input, insufficient_liquidity}
use sol_arb_executor.Dynamic.Types.{DlmmSegment, DlmmCurve}
use sol_arb_executor.Dynamic.Curve.{segment_at, bisect, quote, quote_on_segment}
use sol_arb_executor.Dynamic.Curve.Chain.{Chain, Chain-increasing}

-- `r` splits the segments into those that end before the amount and those that do not.
pub record Splits (ss : List DlmmSegment) (a r : ℕ) : Type 0 where
  pub inside : r ≤ length ss
  pub before : (j : ℕ) → j < r → (segment_at ss j).input_end < a
  pub after : (j : ℕ) → r ≤ j → j < length ss → a ≤ (segment_at ss j).input_end

-- What the loop knows of its two variables.
record Inv (ss : List DlmmSegment) (a lower upper : ℕ) : Type 0 where
  ordered : lower ≤ upper
  inside : upper ≤ length ss
  before : (j : ℕ) → j < lower → (segment_at ss j).input_end < a
  after : (j : ℕ) → upper ≤ j → j < length ss → a ≤ (segment_at ss j).input_end

module _ {i o : ℕ} (ss : List DlmmSegment) (a : ℕ) (chain : Chain i o ss) where
  monotone :
      (j k : ℕ) → j ≤ k → k < length ss → (segment_at ss j).input_end ≤ (segment_at ss k).input_end
  monotone j k h l = elim (dec_lt j k) [
    | yes less ↦ omega (arith, Chain-increasing j k chain less l)
    | no equal ↦ let same : j ≡ k = omega arith in rw same (omega arith)
  ]

  left-Inv :
      (lower upper m : ℕ)
      → Inv ss a lower upper
      → a ≤ (segment_at ss m).input_end
      → lower ≤ m
      → m < upper
      → Inv ss a lower m
  left-Inv lower upper m v covers l h = record {
    ordered = l;
    inside = omega (arith, v.inside);
    before = v.before;
    after = λ j p q. omega (arith, monotone m j p q);
  }

  right-Inv :
      (lower upper m : ℕ)
      → Inv ss a lower upper
      → (segment_at ss m).input_end < a
      → m < upper
      → Inv ss a (m + 1) upper
  right-Inv lower upper m v short h = record {
    ordered = omega arith;
    inside = v.inside;
    before = λ j p. omega (arith, monotone j m (omega arith) (omega (arith, v.inside)));
    after = v.after;
  }

  bisect-Splits :
      (fuel lower upper : ℕ)
      → upper - lower < fuel
      → Inv ss a lower upper
      → Splits ss a (bisect fuel ss a lower upper)
  unfolding bisect
  bisect-Splits zero lower upper enough v = absurd (omega arith)
  bisect-Splits (suc fuel) lower upper enough v = elim (Bool-cases (ltb lower upper)) [
    | inr empty ↦ rw empty (record {
      inside = omega (arith, v.ordered, v.inside);
      before = v.before;
      after = λ j h l. v.after j (ground arith) l;
    })
    | inl open_range ↦
        let less : lower < upper = ltb→lt lower upper open_range in
        elim (Bool-cases (leb a (segment_at ss (lower + (upper - lower) / 2)).input_end)) [
          | inl covers ↦
              rw (open_range, covers)
                (bisect-Splits fuel lower (lower + (upper - lower) / 2) (omega arith)
                  (left-Inv lower upper _ v (leb→le _ _ covers) (omega arith) (omega arith)))
          | inr short ↦
              rw (open_range, short)
                (bisect-Splits fuel (lower + (upper - lower) / 2 + 1) upper (omega arith)
                  (right-Inv lower upper _ v (leb-false→lt _ _ short) (omega arith)))
        ]
  ]

-- A split point is the index of the first segment that reaches the amount.
first_index :
    (ss : List DlmmSegment) (a r : ℕ)
    → Splits ss a r
    → get_elem? ss r ≡ find? (λ s. leb a s.input_end) ss
unfolding find?
first_index [] a r split = refl
first_index (s ∷ ss) a zero split =
    rw (le→leb a s.input_end (split.after 0 (omega arith) (omega arith)), find?)
first_index (s ∷ ss) a (suc r) split =
    rw (lt→leb a s.input_end (split.before 0 (omega arith)), find?)
      (first_index ss a r (record {
        inside = omega (arith, split.inside);
        before = λ j h. split.before (suc j) (omega arith);
        after = λ j h l. split.after (suc j) (omega arith) (omega arith);
      }))

-- On a well-formed curve the binary search gives the answer of a scan from the first segment: the
-- quote is that of the first segment whose end reaches the amount, an amount past the last segment
-- has no liquidity, and zero is refused.
pub quote-eq-scan :
    (curve : DlmmCurve) (amount_in : ℕ)
    → Chain 0 0 curve.segments
    → quote curve amount_in ≡ (
        if amount_in == 0
        then err invalid_input
        else (ok_or (find? (λ s. leb amount_in s.input_end) curve.segments) insufficient_liquidity
            >>= quote_on_segment amount_in))
unfolding quote
quote-eq-scan curve amount_in chain = rw (
    first_index curve.segments amount_in _ (
      bisect-Splits curve.segments amount_in chain (length curve.segments + 1) 0
        (length curve.segments) (omega arith)
        (record {
          ordered = omega arith;
          inside = omega arith;
          before = λ j h. absurd (omega arith);
          after = λ j h l. absurd (omega arith);
        })))
