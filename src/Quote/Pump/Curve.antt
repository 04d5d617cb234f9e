-- ===== src/Quote/Pump/Curve.antt =====
-- The constant-product curve of the Pump AMM, as numbers.
use native.Mathlib.Nat.{
  mul-le-mul_right, div-mul-le_self, div-le_of_le-mul, le-div_iff_mul-le, div-lt_iff_lt-mul,
  one-le-mul, le_of_mul-le-mul_right,
}
use sol_arb_executor.Prelude.{ℕ, suc, ◌+◌, ◌-◌, ◌*◌, ◌/◌, ◌≤◌, ◌<◌, ◌≡◌, ap, arith}

-- The output of `x` units put in beside a reserve of `reserve`.
abbrev pub curve_out : ℕ → ℕ → ℕ → ℕ
curve_out base reserve x = base * x / (reserve + x)

pub curve_out-le : (b r x : ℕ) → curve_out b r x ≤ b
curve_out-le b r x = div-le_of_le-mul (r + x) (omega arith)

-- The output is a fraction of the base reserve that is never all of it.
pub curve_out-lt : (b r x : ℕ) → 0 < b → 0 < r → curve_out b r x < b
curve_out-lt b r x hb hr = (div-lt_iff_lt-mul (omega arith)).1 (omega (arith, one-le-mul hb hr))

-- The product of the reserves does not fall.
pub curve_product : (b r x : ℕ) → b * r ≤ (b - curve_out b r x) * (r + x)
curve_product b r x =
    let k = curve_out b r x in
    let e : b ≡ k + (b - k) = omega (arith, curve_out-le b r x) in
    go k (b - k) b e (div-mul-le_self (b * x) (r + x))
  where
    go : (k m a : ℕ) → a ≡ k + m → k * (r + x) ≤ a * x → a * r ≤ m * (r + x)
    go k m a e h = omega (arith, ap (λ (t : ℕ). t * x) e, ap (λ (t : ℕ). t * r) e)

-- More in, more out.
pub curve_out_mono : (b r x y : ℕ) → 0 < r → x ≤ y → curve_out b r x ≤ curve_out b r y
curve_out_mono b r x y pos h = (le-div_iff_mul-le (omega arith)).1 (
    go (curve_out b r x) (y - x) y (omega arith) (div-mul-le_self (b * x) (r + x))
      (curve_out-le b r x))
  where
    go : (k d z : ℕ) → z ≡ x + d → k * (r + x) ≤ b * x → k ≤ b → k * (r + z) ≤ b * z
    go k d z e p l =
        omega (arith, ap (λ (t : ℕ). k * t) e, ap (λ (t : ℕ). b * t) e, mul-le-mul_right d l)

-- One unit less changes the output where the base reserve is large beside the square of the quote
-- side.
pub curve_out_strict :
    (b r x : ℕ) → 0 < r → (r + suc x) * (r + x) ≤ b * r → curve_out b r x < curve_out b r (suc x)
curve_out_strict b r x pos h =
    (le-div_iff_mul-le (omega arith)).1 (go (curve_out b r x) (div-mul-le_self (b * x) (r + x)))
  where
    go : (k : ℕ) → k * (r + x) ≤ b * x → suc k * (r + suc x) ≤ b * suc x
    go k p =
        le_of_mul-le-mul_right {k = r + x} (omega (arith, mul-le-mul_right (r + suc x) p))
          (omega arith)
