-- ===== src/Quote/Dlmm/Price.antt =====
-- The two price conversions of quote/math.rs, `amount_in_for_out` and `amount_out_for_in`.
use native.Mathlib.Nat.{lt_trans, mul-le-mul_right, div-lt_iff_lt-mul}
use sol_arb_executor.Prelude.{
  ℕ, suc, ◌+◌, ◌*◌, ◌/◌, ◌≤◌, ◌<◌, ◌≡◌, arith, Bool, true, false, ◌==◌, Bool-cases, inl, inr,
  pos→==,
}
use sol_arb_executor.Errors.{ok, ok_or, math_overflow, ◌>>=◌}
use sol_arb_executor.Word.{u64_size, checked_mul_u128_lt, checked_mul_u128, checked_add_u128}
use sol_arb_executor.Quote.Types.{q64}
use sol_arb_executor.Quote.Basic.{ceil_quot, ceil_div, to_u64, ceil_quot_bounds, to_u64_lt}
use sol_arb_executor.Quote.Dlmm.{amount_in_for_out, amount_out_for_in}

-- A rounded-up division that succeeds, narrowed to u64.
ceil_div-eq-ok :
    (n d : ℕ) {i : ℕ}
    → (ceil_div n d >>= to_u64) ≡ ok i
    → (0 < d) × (i ≡ ceil_quot n d) × (i < u64_size)
unfolding ceil_div checked_add_u128 to_u64
ceil_div-eq-ok n d done = ground arith

mul_div-eq-ok :
    (m price : ℕ) {i : ℕ}
    → (ok_or (checked_mul_u128 m price) math_overflow
        >>= (λ product. ceil_div product q64)
        >>= to_u64)
      ≡ ok i
    → (0 < q64) × (i ≡ ceil_quot (m * price) q64) × (i < u64_size)
unfolding ceil_div checked_add_u128 checked_mul_u128 to_u64
mul_div-eq-ok m price done = ground arith

-- The input asked for is the rounded-up price of the output: with `scale` the units of output and
-- `price` those of input, `i` is the first number whose worth reaches `m`.
abbrev pub Covers : ℕ → ℕ → Bool → ℕ → Type 0
Covers m price true i = (m * q64 ≤ i * price) × ((u : ℕ) → u < i → u * price < m * q64)
Covers m price false i = (m * price ≤ i * q64) × ((u : ℕ) → u < i → u * q64 < m * price)

ceil_quot-first : (n d u : ℕ) → 0 < d → u < ceil_quot n d → u * d < n
ceil_quot-first n d u pos h =
    omega
      (arith, ceil_quot_bounds n d pos, mul-le-mul_right {m = suc u} {n = ceil_quot n d} d h, grow)
  where
    grow : suc u * d ≡ u * d + d
    grow = grind arith

pub amount_in_for_out-Covers :
    (m price : ℕ) (s : Bool) {i : ℕ}
    → amount_in_for_out m price s ≡ ok i
    → (0 < price) × (i < u64_size) × Covers m price s i
unfolding amount_in_for_out
amount_in_for_out-Covers m price true done = elim (Bool-cases (price == 0)) [
  | inl free ↦ cc (rw free at done)
  | inr priced ↦
      let (pos, e, small) = ceil_div-eq-ok (m * q64) price (rw priced at done) in
      rw e (
        pos,
        rw (← e) small,
        ((ceil_quot_bounds (m * q64) price pos).0, λ u h. ceil_quot-first (m * q64) price u pos h),
      )
]
amount_in_for_out-Covers m price false done = elim (Bool-cases (price == 0)) [
  | inl free ↦ cc (rw free at done)
  | inr priced ↦
      let (pos, e, small) = mul_div-eq-ok m price (rw priced at done) in
      rw e (
        ground arith,
        rw (← e) small,
        ((ceil_quot_bounds (m * price) q64 pos).0, λ u h. ceil_quot-first (m * price) q64 u pos h),
      )
]

-- An input below the one asked for can be quoted, and gives less than the whole output.
pub amount_out_for_in-lt :
    (m price u : ℕ) (s : Bool) {i : ℕ}
    → m < u64_size
    → amount_in_for_out m price s ≡ ok i
    → u < i
    → (o : ℕ) × (amount_out_for_in u price s ≡ ok o) × (o < m)
unfolding amount_out_for_in
amount_out_for_in-lt m price u true small asked less =
    let (pos, _, first) = amount_in_for_out-Covers m price true asked in
    let below : u * price < m * q64 = first.1 u less in
    let scale : 0 < q64 = omega arith in
    let lower : u * price / q64 < m = (div-lt_iff_lt-mul scale).1 below in
    (
      u * price / q64,
      rw (pos→== price pos, checked_mul_u128_lt u price (lt_trans below (omega arith)))
          (to_u64_lt (u * price / q64) (lt_trans lower small)),
      lower,
    )
amount_out_for_in-lt m price u false small asked less =
    let (pos, _, first) = amount_in_for_out-Covers m price false asked in
    let lower : u * q64 / price < m = (div-lt_iff_lt-mul pos).1 (first.1 u less) in
    (
      u * q64 / price,
      rw (pos→== price pos) (to_u64_lt (u * q64 / price) (lt_trans lower small)),
      lower,
    )
