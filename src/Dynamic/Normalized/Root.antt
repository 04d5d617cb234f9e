-- ===== src/Dynamic/Normalized/Root.antt =====
-- `integer_sqrt` of dynamic_amount.rs against the definition of a square root.
use native.Mathlib.Nat.{
  mul-le-mul, mul-le-mul_right, div-mul-le_self, lt-mul-div-succ, one-le-pow, pow-le-pow_right,
  pow-suc,
}
use native.Mathlib.Decide.{dec_lt}
use sol_arb_executor.Prelude.{
  ℕ, zero, suc, ◌+◌, ◌-◌, ◌*◌, ◌/◌, ◌^◌, ◌≤◌, ◌<◌, ◌≡◌, ap, arith, refl, Option, some, Bool-cases,
  inl, inr, leb, ltb, leb→le, leb-false→lt, ◌==◌,
}
use sol_arb_executor.Word.{u128_size}
use sol_arb_executor.Dynamic.Normalized.{bit_length, newton, integer_sqrt}

pub record IsRoot (value r : ℕ) : Type 0 where
  pub below : r * r ≤ value
  pub above : value < (r + 1) * (r + 1)

-- The loop has ended, with the root of the value.
abbrev pub HasRoot : ℕ → Option ℕ → Type 0
HasRoot value result = (r : ℕ) × (result ≡ some r) × IsRoot value r

-- The square of a sum is four times the product at least.
squares : (a d : ℕ) → 4 * (a * (a + d)) ≤ (a + (a + d)) * (a + (a + d))
squares a d = omega arith

four_products : (a b : ℕ) → 4 * (a * b) ≤ (a + b) * (a + b)
four_products a b = elim (dec_lt a b) [
  | yes less ↦ let e : b ≡ a + (b - a) = omega arith in rw e (squares a (b - a))
  | no more ↦ let e : a ≡ b + (a - b) = omega arith in rw e (omega (arith, squares b (a - b)))
]

-- One step of Newton's method stays at or above the root.
newton_above : (v e : ℕ) → 0 < e → v < ((e + v / e) / 2 + 1) * ((e + v / e) / 2 + 1)
newton_above v e pos =
    let n = (e + v / e) / 2 in
    let wide : e + (v / e + 1) ≤ 2 * (n + 1) = omega arith in
    omega (
      arith,
      lt-mul-div-succ v pos,
      four_products e (v / e + 1),
      mul-le-mul {n₁ = e + (v / e + 1)} {m₁ = e + (v / e + 1)} {n₂ = 2 * (n + 1)} {m₂ = 2 * (n + 1)}
          wide wide,
    )

newton-IsRoot :
    (fuel v e : ℕ) → 0 < v → 0 < e → e < fuel → v < (e + 1) * (e + 1) → HasRoot v (newton fuel v e)
unfolding newton
newton-IsRoot zero v e some_value pos enough above = absurd (omega arith)
newton-IsRoot (suc fuel) v e some_value pos enough above =
    elim (Bool-cases (leb e ((e + v / e) / 2))) [
      | inl stop ↦
          let le : e ≤ v / e = omega (arith, leb→le _ _ stop) in
          rw (newton, stop)
            (
              e,
              refl,
              record {
                below =
                    omega (arith, mul-le-mul_right {m = e} {n = v / e} e le, div-mul-le_self v e);
                above = above;
              },
            )
      | inr go ↦
          let next = (e + v / e) / 2 in
          let less : next < e = leb-false→lt _ _ go in
          let wide : v < (next + 1) * (next + 1) = newton_above v e pos in
          rw (newton, go)
            (newton-IsRoot fuel v next some_value
              (elim (dec_lt 0 next) [
                | yes more ↦ more
                | no none_left ↦
                    let empty : next ≡ 0 = omega arith in absurd (omega (arith, rw empty at wide))
              ])
              (omega arith) wide)
    ]

next_pow : (n : ℕ) → 2 ^ (n + 1) ≡ 2 ^ n * 2
next_pow n = let e : n + 1 ≡ suc n = omega arith in rw e (pow-suc 2 n)

pow_sum : (m n : ℕ) → 2 ^ (m + n) ≡ 2 ^ m * 2 ^ n
pow_sum zero n = let e : zero + n ≡ n = omega arith in rw e (omega arith)
pow_sum (suc m) n =
    let e : suc m + n ≡ suc (m + n) = omega arith in
    rw e (omega (arith, pow-suc 2 (m + n), ap (λ (t : ℕ). t * 2 ^ n) (pow-suc 2 m), pow_sum m n))

-- Every value below 2 ^ bits is below two to its length.
bit_length-lt : (bits v : ℕ) → v < 2 ^ bits → v < 2 ^ bit_length bits v
unfolding bit_length
bit_length-lt zero v h = h
bit_length-lt (suc bits) v h = elim (Bool-cases (v == 0)) [
  | inl empty ↦ rw (bit_length, empty) (ground arith)
  | inr more ↦
      rw (bit_length, more)
        (omega
          (arith, bit_length-lt bits (v / 2) (omega arith), next_pow (bit_length bits (v / 2))))
]

-- Whatever u128 it is given, the loop leaves by its test within the fuel, and returns the largest
-- number whose square is no larger than the value.
pub integer_sqrt-IsRoot : (value : ℕ) → value < u128_size → HasRoot value (integer_sqrt value)
unfolding integer_sqrt
integer_sqrt-IsRoot value small = elim (Bool-cases (ltb value 2)) [
  | inl tiny ↦ elim (Bool-cases (value == 0)) [
    | inl empty ↦
        let none_left : value ≡ 0 = ground arith in
        rw none_left (0, refl, record { below = omega arith; above = omega arith })
    | inr more ↦
        let one : value ≡ 1 = ground arith in
        rw one (1, refl, record { below = omega arith; above = omega arith })
  ]
  | inr large ↦
      let k = (bit_length 128 value + 1) / 2 in
      rw large (
        newton-IsRoot (2 ^ k + 1) value (2 ^ k) (ground arith) (one-le-pow k 2 (omega arith))
          (omega arith)
          (omega (
            arith,
            bit_length-lt 128 value small,
            pow-le-pow_right {n = 2} (omega arith) {i = bit_length 128 value} {j = k + k}
                (omega arith),
            pow_sum k k,
          )))
]
