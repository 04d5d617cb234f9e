-- ===== src/Errors.antt =====
-- programs/sol-arb-executor/src/errors.rs and the error type of quote/math.rs: the error codes of
-- the program, Rust's `Result` with its `?`, and the shorthands `require!`, `ok_or` and `map_err`.
use sol_arb_executor.Prelude.{◌≡◌, refl, Bool, true, false, Option, none, some, ◌⊎◌, inl, inr}

pub data ArbError : Type 0 where
  invalid_program_id invalid_token_mint invalid_token_account_owner invalid_pool : ArbError
  invalid_cashback_account invalid_remaining_accounts invalid_bin_array : ArbError
  balance_did_not_increase_as_expected arithmetic_overflow invalid_amount : ArbError
  profit_too_low target_balance_not_restored unsupported_token_program : ArbError
  unsupported_token_extension invalid_route_accounts invalid_account_data : ArbError
  best_direction_quote_incomplete no_profitable_direction : ArbError
  invalid_dynamic_amount_range : ArbError

pub data QuoteError : Type 0 where
  invalid_input math_overflow insufficient_liquidity : QuoteError

-- `Result<A, E>`, error type first.
pub data Result (E A : Type 0) : Type 0 where
  ok : A → Result E A
  err : E → Result E A

infixl 5 ◌>>=◌ ◌>>◌
abbrev pub ◌>>=◌ : {E A B : Type 0} → Result E A → (A → Result E B) → Result E B
err failure >>= next = err failure
ok value >>= next = next value

-- `option.ok_or(error)`.
abbrev pub ok_or : {E A : Type 0} → Option A → E → Result E A
ok_or none e = err e
ok_or (some a) e = ok a

abbrev pub ◌>>◌ : {E B : Type 0} → Result E (Unit {0}) → Result E B → Result E B
first >> second = first >>= λ _. second

-- `require!(condition, error)`.
abbrev pub require : {E : Type 0} → Bool → E → Result E (Unit {0})
require false error = err error
require true error = ok tt

-- `result.ok()`.
abbrev pub to_option : {E A : Type 0} → Result E A → Option A
to_option (ok a) = some a
to_option (err e) = none

-- `result.map_err(|_| error)`.
abbrev pub map_err : {E F A : Type 0} → Result E A → F → Result F A
map_err (ok a) e = ok a
map_err (err _) e = err e

-- Inversion of a successful bind.
pub >>=-eq-ok :
    {E A B : Type 0} (m : Result E A) (f : A → Result E B) {b : B}
    → (m >>= f) ≡ ok b
    → (a : A) × (m ≡ ok a) × (f a ≡ ok b)
>>=-eq-ok (err failure) f h = cc
>>=-eq-ok (ok value) f h = (value, refl, h)

pub Result-cases :
    {E A : Type 0} (r : Result E A) → ((a : A) × (r ≡ ok a)) ⊎ ((e : E) × (r ≡ err e))
Result-cases (ok a) = inl (a, refl)
Result-cases (err e) = inr (e, refl)

-- The error of an `ok_or` chain never hides the value.
pub ok-injective : {E A : Type 0} {a b : A} → ◌≡◌ {A = Result E A} (ok a) (ok b) → a ≡ b
ok-injective h = cc

pub ok_or-eq-ok : {E A : Type 0} (o : Option A) (e : E) {a : A} → ok_or o e ≡ ok a → o ≡ some a
ok_or-eq-ok none e h = cc
ok_or-eq-ok (some a) e h = cc

pub require-eq-ok : {E : Type 0} (b : Bool) (e : E) → require b e ≡ ok tt → b ≡ true
require-eq-ok true e h = refl
require-eq-ok false e h = cc

-- Inversion of a successful check before the rest.
pub >>-eq-ok :
    {E B : Type 0} (m : Result E (Unit {0})) (rest : Result E B) {b : B}
    → (m >> rest) ≡ ok b
    → (m ≡ ok tt) × (rest ≡ ok b)
>>-eq-ok (err failure) rest h = cc
>>-eq-ok (ok tt) rest h = (refl, h)

-- Inversion of a `require!` before the rest.
pub require->>-eq-ok :
    {E B : Type 0} (b : Bool) (e : E) (rest : Result E B) {x : B}
    → (require b e >> rest) ≡ ok x
    → (b ≡ true) × (rest ≡ ok x)
require->>-eq-ok true e rest h = (refl, h)
require->>-eq-ok false e rest h = cc

-- `result.ok().and_then(next)`.
abbrev pub ok_and_then : {E A B : Type 0} → Result E A → (A → Option B) → Option B
ok_and_then (err _) next = none
ok_and_then (ok a) next = next a

pub ok_and_then-eq-some :
    {E A B : Type 0} (r : Result E A) (next : A → Option B) {b : B}
    → ok_and_then r next ≡ some b
    → (a : A) × (r ≡ ok a) × (next a ≡ some b)
ok_and_then-eq-some (err _) next h = cc
ok_and_then-eq-some (ok a) next h = (a, refl, h)

pub to_option-eq-some : {E A : Type 0} (r : Result E A) {a : A} → to_option r ≡ some a → r ≡ ok a
to_option-eq-some (err _) h = cc
to_option-eq-some (ok a) h = cc

-- A successful bind, from its two parts.
pub >>=-ok :
    {E A B : Type 0} (m : Result E A) (f : A → Result E B) {a : A} {b : B}
    → m ≡ ok a
    → f a ≡ ok b
    → (m >>= f) ≡ ok b
>>=-ok m f h k = rw h k

-- A success does not depend on the error that another outcome would be.
pub ok_or-other :
    {E F A : Type 0} (o : Option A) (e : E) (f : F) {a : A} → ok_or o e ≡ ok a → ok_or o f ≡ ok a
ok_or-other none e f h = cc
ok_or-other (some a) e f h = cc

pub map_err-ok : {E F A : Type 0} (r : Result E A) (f : F) {a : A} → r ≡ ok a → map_err r f ≡ ok a
map_err-ok (err e) f h = cc
map_err-ok (ok a) f h = cc
