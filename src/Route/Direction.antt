-- ===== src/Route/Direction.antt =====
-- instructions/best_direction.rs: the quote of the DLMM leg from the accounts, the choice of the
-- direction and the bin arrays for the chosen one.
pub mod Chooses
pub mod Ordered
use sol_arb_executor.Prelude.{
  ℕ, zero, suc, List, [], ◌∷◌, Bool, true, false, ◌||◌, Option, none, some, find?, leb, ltb, ◌==◌,
  if◌then◌else◌,
}
use sol_arb_executor.Prelude.Int.{ℤ, ◌==ℤ◌}
use sol_arb_executor.Errors.{
  ArbError, best_direction_quote_incomplete, no_profitable_direction, arithmetic_overflow, Result,
  ok, err, ◌>>=◌, ◌>>◌, ok_or, map_err, to_option, require,
}
use sol_arb_executor.Word.{checked_sub, checked_add_u64}
use sol_arb_executor.Quote.Types.{QuoteResult}
use sol_arb_executor.Quote.Dlmm.{dlmm_quote_exact_in_partial}
use sol_arb_executor.Accounts.Types.{
  LbPairState, DlmmVariableParameters, AccountInfo, max_quote_visited_bins_per_direction,
}
use sol_arb_executor.Accounts.Bins.{parse_bin_array_index, parse_bin_for_id, bin_array_index}
use sol_arb_executor.Accounts.Volatility.{
  update_reference, update_volatility_accumulator, dlmm_fee_parameters, fee_on_input,
  supports_limit_orders,
}
use sol_arb_executor.Dynamic.Types.{SelectedDirection, pump_to_meteora, meteora_to_pump}
use sol_arb_executor.Dynamic.Build.{
  next_bin, array_initialized, index_matches, find_array, note_array, usable_bin,
}

-- `option.filter(|amount_out| *amount_out >= required_out)`.
unfoldable pub at_least : ℕ → Option ℕ → Option ℕ
at_least required_out none = none
at_least required_out (some amount_out) =
    if leb required_out amount_out then some amount_out else none

abbrev pub is_some : {A : Type 0} → Option A → Bool
is_some none = false
is_some (some a) = true

-- The match on the filtered outputs. Its last arm is `unreachable!`: the test before it excludes it.
unfoldable pub prefer : Option ℕ → Option ℕ → Result ArbError SelectedDirection
prefer (some forward) (some reverse) =
    ok (if ltb forward reverse then meteora_to_pump else pump_to_meteora)
prefer (some forward) none = ok pump_to_meteora
prefer none (some reverse) = ok meteora_to_pump
prefer none none = err no_profitable_direction

unfoldable pub choose_direction : Option ℕ → Option ℕ → ℕ → Result ArbError SelectedDirection
choose_direction forward_out reverse_out required_out = do
  require (is_some forward_out || is_some reverse_out) best_direction_quote_incomplete
  let forward = at_least required_out forward_out
  let reverse = at_least required_out reverse_out
  require (is_some forward || is_some reverse) no_profitable_direction
  prefer forward reverse

-- `used_indices[..used_len]` is a list.
pub record AccountDataQuote : Type 0 where
  pub amount_out : ℕ
  pub used_indices : List ℤ

-- The mutable variables of the loop.
pub record QuoteState : Type 0 where
  pub active_id : ℤ
  pub variable : DlmmVariableParameters
  pub remaining : ℕ
  pub amount_out : ℕ
  pub used_indices : List ℤ

-- What does not change during the loop.
pub record QuoteWalk : Type 0 where
  pub pair : LbPairState
  pub arrays : List AccountInfo
  pub bitmap_extension : Option (List ℕ)
  pub swap_for_y : Bool
  pub fee_on_input : Bool
  pub supports_limit_orders : Bool

-- The body for an initialized array.
unfoldable pub take_bin : QuoteWalk → QuoteState → ℤ → Result ArbError QuoteState
take_bin w s array_index = do
  account ← ok_or (find_array w.arrays array_index) best_direction_quote_incomplete
  used ← ok_or (note_array s.used_indices array_index) best_direction_quote_incomplete
  parsed ←
      map_err (parse_bin_for_id account.data_bytes s.active_id array_index)
        best_direction_quote_incomplete
  let bin = usable_bin w.supports_limit_orders parsed
  let variable = update_volatility_accumulator s.active_id s.variable w.pair.static_parameters
  partial ←
      map_err
        (dlmm_quote_exact_in_partial s.remaining (bin ∷ []) w.swap_for_y w.fee_on_input
          (dlmm_fee_parameters w.pair variable))
        best_direction_quote_incomplete
  remaining ← ok_or (checked_sub s.remaining partial.amount_in) arithmetic_overflow
  amount_out ← ok_or (checked_add_u64 s.amount_out partial.amount_out) arithmetic_overflow
  ok (record {
    active_id = if remaining == 0 then s.active_id else next_bin s.active_id w.swap_for_y;
    variable = variable;
    remaining = remaining;
    amount_out = amount_out;
    used_indices = used;
  })

-- The body after its test `remaining == 0`.
unfoldable pub quote_round : QuoteWalk → QuoteState → Result ArbError QuoteState
quote_round w s = do
  let array_index = bin_array_index s.active_id
  initialized ← array_initialized w.pair w.bitmap_extension array_index
  if initialized
      then take_bin w s array_index
      else ok (record s { active_id = next_bin s.active_id w.swap_for_y })

-- The loop, for the rounds that are left.
unfoldable pub quote_rounds : ℕ → QuoteWalk → QuoteState → Result ArbError QuoteState
quote_rounds zero w s = ok s
quote_rounds (suc rounds) w s =
    if s.remaining == 0 then ok s else (quote_round w s >>= quote_rounds rounds w)

unfoldable pub quote_dlmm_from_accounts :
    ℕ
    → LbPairState
    → List AccountInfo
    → Option (List ℕ)
    → Bool
    → ℤ
    → Result ArbError AccountDataQuote
quote_dlmm_from_accounts amount_in pair arrays bitmap_extension swap_for_y timestamp = do
  let variable =
      update_reference pair.active_id pair.variable_parameters pair.static_parameters timestamp
  on_input ← map_err (fee_on_input pair swap_for_y) best_direction_quote_incomplete
  supported ← map_err (supports_limit_orders pair) best_direction_quote_incomplete
  s ←
      quote_rounds max_quote_visited_bins_per_direction
        (record {
          pair = pair;
          arrays = arrays;
          bitmap_extension = bitmap_extension;
          swap_for_y = swap_for_y;
          fee_on_input = on_input;
          supports_limit_orders = supported;
        })
        (record {
          active_id = pair.active_id;
          variable = variable;
          remaining = amount_in;
          amount_out = 0;
          used_indices = [];
        })
  require (s.remaining == 0) best_direction_quote_incomplete
  ok (record { amount_out = s.amount_out; used_indices = s.used_indices })

unfoldable pub ordered_bin_arrays : List AccountInfo → List ℤ → Result ArbError (List AccountInfo)
ordered_bin_arrays accounts [] = ok []
ordered_bin_arrays accounts (wanted ∷ indices) = do
  account ← ok_or (find_array accounts wanted) best_direction_quote_incomplete
  rest ← ordered_bin_arrays accounts indices
  ok (account ∷ rest)
