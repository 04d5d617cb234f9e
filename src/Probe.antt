-- ===== src/Probe.antt =====
-- test-programs/quote-probe/src/amount_search.rs: the trial of a few amounts in both directions.
mod Chosen
mod Tests
use sol_arb_executor.Prelude.{
  ℕ, zero, suc, ◌-◌, ◌||◌, length, drop, List, [], ◌∷◌, Bool, true, false, not, ◌&&◌, Option, none,
  some, leb, ltb, if◌then◌else◌,
}
use sol_arb_executor.Prelude.Int.{ℤ}
use sol_arb_executor.Errors.{
  QuoteError, invalid_input, math_overflow, Result, ok, err, ◌>>=◌, ◌>>◌, ok_or, require,
}
use sol_arb_executor.Word.{checked_sub, checked_add_u64}
use sol_arb_executor.Quote.Pump.{pump_buy_exact_quote_in, pump_sell_base_in}
use sol_arb_executor.Accounts.Types.{PumpFees, LbPairState}
use sol_arb_executor.Accounts.Pump.{
  parse_pump_pool, parse_pump_global_fees, select_pump_fees_from_data, token_amount, mint_supply,
}
use sol_arb_executor.Accounts.Pair.{parse_lb_pair, all_zero}
use sol_arb_executor.Validate.Constants.{pump_program_id}
use sol_arb_executor.Validate.Layout.{same_bytes, slice, slice_is}
use sol_arb_executor.Handlers.Market.{pool_authority_seed, without_creator}
use sol_arb_executor.Snapshot.{ParsedBinArray, parse_bin_array_window, quote_dlmm_snapshot}

pub record Market : Type 0 where
  pub base : ℕ
  pub quote : ℕ
  pub virtual_quote : ℕ
  pub fees : PumpFees
  pub pair : LbPairState
  pub arrays : List ParsedBinArray
  pub target_is_x : Bool
  pub timestamp : ℤ

pub record Row : Type 0 where
  pub input : ℕ
  pub forward : Result QuoteError ℕ
  pub reverse : Result QuoteError ℕ

pub record Choice : Type 0 where
  pub input : ℕ
  pub output : ℕ
  pub reverse : Bool

-- `best.is_none_or(|b| profit > b.output - b.input)`.
abbrev pub exceeds : ℕ → Option Choice → Bool
exceeds profit none = true
exceeds profit (some b) = ltb (b.output - b.input) profit

-- An output that was quoted.
unfoldable pub consider_output : ℕ → ℕ → Bool → ℕ → Option Choice → Option Choice
consider_output min_profit input reverse output best = elim (checked_sub output input) [
  | none ↦ best
  | some profit ↦
      if leb min_profit profit && exceeds profit best
      then some (record { input = input; output = output; reverse = reverse })
      else best
]

-- The body of the inner loop.
abbrev pub consider_result : ℕ → ℕ → Bool → Result QuoteError ℕ → Option Choice → Option Choice
consider_result min_profit input reverse (err _) best = best
consider_result min_profit input reverse (ok output) best =
    consider_output min_profit input reverse output best

-- The inner loop: the two directions of a row, forward first.
unfoldable pub consider_row : ℕ → Row → Option Choice → Option Choice
consider_row min_profit row best =
    consider_result min_profit row.input true row.reverse
      (consider_result min_profit row.input false row.forward best)

unfoldable pub choose_from : List Row → ℕ → Option Choice → Option Choice
choose_from [] min_profit best = best
choose_from (row ∷ rows) min_profit best =
    choose_from rows min_profit (consider_row min_profit row best)

unfoldable pub choose : List Row → ℕ → Option Choice
choose rows min_profit = choose_from rows min_profit none

-- `data[i]`, which `parse` uses below the length only.
abbrev pub item : List (List ℕ) → ℕ → List ℕ
item [] i = []
item (x ∷ xs) zero = x
item (x ∷ xs) (suc i) = item xs i

-- `data[7..].iter().map(...).collect()`.
unfoldable pub parse_windows : List (List ℕ) → ℤ → Result QuoteError (List ParsedBinArray)
parse_windows [] active_id = ok []
parse_windows (data_bytes ∷ rest) active_id = do
  array ← parse_bin_array_window data_bytes active_id
  arrays ← parse_windows rest active_id
  ok (array ∷ arrays)

-- `Market::parse`, over the derivation of an address from seeds.
unfoldable pub parse :
    (List (List ℕ) → List ℕ → List ℕ) → List (List ℕ) → ℤ → Result QuoteError Market
parse find_program_address items timestamp = do
  require (leb 8 (length items) && leb (length items) 11) invalid_input
  pool ← parse_pump_pool (item items 0)
  base ← token_amount (item items 4)
  quote ← token_amount (item items 5)
  let expected_creator =
      find_program_address (pool_authority_seed ∷ pool.base_mint ∷ []) pump_program_id
  global ← parse_pump_global_fees (item items 1)
  supply ← mint_supply (item items 3)
  effective_quote ← ok_or (checked_add_u64 quote pool.virtual_quote_reserves) math_overflow
  selected ←
      select_pump_fees_from_data (item items 2) global (same_bytes pool.creator expected_creator)
        supply base effective_quote
  pair ← parse_lb_pair (item items 6)
  let target_is_x = slice_is (slice 32 (item items 6) 88) pool.base_mint
  require (target_is_x || slice_is (slice 32 (item items 6) 120) pool.base_mint) invalid_input
  arrays ← parse_windows (drop 7 items) pair.active_id
  ok (record {
    base = base;
    quote = quote;
    virtual_quote = pool.virtual_quote_reserves;
    fees = without_creator (all_zero pool.coin_creator) selected;
    pair = pair;
    arrays = arrays;
    target_is_x = target_is_x;
    timestamp = timestamp;
  })

-- `Market::row`.
unfoldable pub row : Market → ℕ → Row
row market input = record {
  input = input;
  forward = (do
    buy ←
        pump_buy_exact_quote_in input market.base market.quote market.virtual_quote
          market.fees.lp_fee_bps market.fees.protocol_fee_bps market.fees.creator_fee_bps
    q ←
        quote_dlmm_snapshot buy.amount_out market.pair market.arrays market.target_is_x
          market.timestamp
    ok q.amount_out);
  reverse = (do
    buy ←
        quote_dlmm_snapshot input market.pair market.arrays (not market.target_is_x)
          market.timestamp
    q ←
        pump_sell_base_in buy.amount_out market.base market.quote market.virtual_quote
          market.fees.lp_fee_bps market.fees.protocol_fee_bps market.fees.creator_fee_bps
    ok q.amount_out);
}

-- The rows of `process`.
abbrev pub rows_of : Market → List ℕ → List Row
rows_of market [] = []
rows_of market (input ∷ inputs) = row market input ∷ rows_of market inputs
