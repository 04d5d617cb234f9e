-- ===== src/Snapshot/Same.antt =====
-- The quote on a snapshot against the quote from the accounts of best_direction.rs.
use mathlib.Core.Path.{subst}
use sol_arb_executor.Prelude.{
  ℕ, zero, suc, ◌≡◌, ap, List, [], ◌∷◌, Bool, true, false, Option, if◌then◌else◌, none, some, find?,
  ◌==◌, arith,
}
use sol_arb_executor.Prelude.Int.{ℤ, ◌==ℤ◌}
use sol_arb_executor.Errors.{
  QuoteError, ArbError, math_overflow, insufficient_liquidity, best_direction_quote_incomplete,
  arithmetic_overflow, Result, ok, ◌>>=◌, ok_or, map_err, map_err-ok, ok_or-other, >>=-ok,
  >>=-eq-ok, ok_or-eq-ok, ok-injective, require->>-eq-ok,
}
use sol_arb_executor.Word.{checked_sub, checked_add_u64}
use sol_arb_executor.Quote.Types.{Bin}
use sol_arb_executor.Quote.Dlmm.{dlmm_quote_exact_in_partial}
use sol_arb_executor.Accounts.Types.{LbPairState, AccountInfo, max_quote_visited_bins_per_direction}
use sol_arb_executor.Accounts.Bins.{
  bin_array_index, bin_offset, in_default_range, default_bitmap_contains, extension_bitmap_contains,
  parse_bin_for_id,
}
use sol_arb_executor.Accounts.Volatility.{
  update_reference, update_volatility_accumulator, dlmm_fee_parameters, fee_on_input,
  supports_limit_orders,
}
use sol_arb_executor.Dynamic.Build.{array_initialized, find_array, note_array, usable_bin, next_bin}
use sol_arb_executor.Route.Direction.{
  QuoteState, QuoteWalk, take_bin, quote_round, quote_rounds, quote_dlmm_from_accounts,
}
use sol_arb_executor.Snapshot.{
  ParsedBinArray, DlmmSnapshotQuote, SnapshotState, SnapshotWalk, snapshot_initialized,
  charge_round, snapshot_bin, snapshot_round, snapshot_rounds, quote_dlmm_snapshot_with_bitmap,
}
use sol_arb_executor.Snapshot.Arrays.{AreParsed, find_array-parsed, parsed_bin}

-- The state of the loop on the accounts: all but the fee.
abbrev without_fee : SnapshotState → QuoteState
without_fee s = record {
  active_id = s.active_id;
  variable = s.variable;
  remaining = s.remaining;
  amount_out = s.amount_out;
  used_indices = s.used_array_indices;
}

abbrev on_accounts : SnapshotWalk → List AccountInfo → QuoteWalk
on_accounts w accounts = record {
  pair = w.pair;
  arrays = accounts;
  bitmap_extension = w.bitmap_extension;
  swap_for_y = w.swap_for_y;
  fee_on_input = w.fee_on_input;
  supports_limit_orders = w.supports_limit_orders;
}

-- A test that both loops make before they read the extension.
in_range_or :
    (d x : Bool) (r : Result QuoteError Bool) (q : Result ArbError Bool) {b : Bool}
    → (r ≡ ok b → q ≡ ok b)
    → (if d then ok x else r) ≡ ok b
    → (if d then ok x else q) ≡ ok b
in_range_or true x r q f h = ap ok (ok-injective h)
in_range_or false x r q f h = f h

initialized-eq :
    (pair : LbPairState) (extension : Option (List ℕ)) (index : ℤ) {b : Bool}
    → snapshot_initialized pair extension index ≡ ok b
    → array_initialized pair extension index ≡ ok b
unfolding snapshot_initialized array_initialized
initialized-eq pair none index h =
    in_range_or (in_default_range index) (default_bitmap_contains pair.bitmap index) (ok false)
      (ok false) (λ k. ap ok (ok-injective k)) h
initialized-eq pair (some extension) index h =
    in_range_or (in_default_range index) (default_bitmap_contains pair.bitmap index)
      (extension_bitmap_contains extension index)
      (map_err (extension_bitmap_contains extension index) best_direction_quote_incomplete)
      (map_err-ok _ _) h

equal_indices : (i j : ℤ) → (i ==ℤ j) ≡ true → i ≡ j
equal_indices i j h = ground arith

module _ (w : SnapshotWalk) (accounts : List AccountInfo)
    (parsed : AreParsed accounts w.arrays) where
  -- The rest of a round, for the bin that both loops have read.
  charge_round-eq :
      (s t : SnapshotState) (index : ℤ) (account : AccountInfo) (used : List ℤ) (read : Bin)
      → ok_or (find_array accounts index) best_direction_quote_incomplete ≡ ok account
      → ok_or (note_array s.used_array_indices index) best_direction_quote_incomplete ≡ ok used
      → map_err
          (parse_bin_for_id account.data_bytes s.active_id index)
          best_direction_quote_incomplete
        ≡ ok read
      → charge_round w s used read ≡ ok t
      → take_bin (on_accounts w accounts) (without_fee s) index ≡ ok (without_fee t)
  unfolding charge_round take_bin
  charge_round-eq s t index account used read found noted bin_read h =
      let bin = usable_bin w.supports_limit_orders read in
      let variable =
        update_volatility_accumulator s.active_id s.variable w.pair.static_parameters in
      let quoted =
        dlmm_quote_exact_in_partial s.remaining (bin ∷ []) w.swap_for_y w.fee_on_input
          (dlmm_fee_parameters w.pair variable) in
      let (partial, p, h1) = >>=-eq-ok quoted _ h in
      let (remaining, r, h2) =
        >>=-eq-ok (ok_or (checked_sub s.remaining partial.amount_in) math_overflow) _ h1 in
      let (out, o, h3) =
        >>=-eq-ok (ok_or (checked_add_u64 s.amount_out partial.amount_out) math_overflow) _ h2 in
      let (fee, _, h4) =
        >>=-eq-ok (ok_or (checked_add_u64 s.total_fee partial.fee) math_overflow) _ h3 in
      >>=-ok (ok_or (find_array accounts index) best_direction_quote_incomplete) _ found (
        >>=-ok (ok_or (note_array s.used_array_indices index) best_direction_quote_incomplete) _
          noted
          (>>=-ok
            (map_err (parse_bin_for_id account.data_bytes s.active_id index)
              best_direction_quote_incomplete)
            _ bin_read
            (>>=-ok (map_err quoted best_direction_quote_incomplete) _ (map_err-ok _ _ p) (
              >>=-ok (ok_or (checked_sub s.remaining partial.amount_in) arithmetic_overflow) _
                (ok_or-other _ _ _ r)
                (>>=-ok
                  (ok_or (checked_add_u64 s.amount_out partial.amount_out) arithmetic_overflow) _
                  (ok_or-other _ _ _ o) (ap (λ z. ok (without_fee z)) (ok-injective h4)))))))

  snapshot_bin-eq :
      (s t : SnapshotState) (index : ℤ)
      → snapshot_bin w s index ≡ ok t
      → take_bin (on_accounts w accounts) (without_fee s) index ≡ ok (without_fee t)
  unfolding snapshot_bin
  snapshot_bin-eq s t index h =
      let (array, a, h1) =
        >>=-eq-ok (ok_or (find? (λ a. a.index ==ℤ index) w.arrays) insufficient_liquidity) _ h in
      let (used, u, h2) =
        >>=-eq-ok (ok_or (note_array s.used_array_indices index) insufficient_liquidity) _ h1 in
      let (k, offset, h3) = >>=-eq-ok (bin_offset s.active_id array.index) _ h2 in
      let (entry, e, charged) =
        >>=-eq-ok (ok_or (find? (λ e. e.0 == k) array.bins) insufficient_liquidity) _ h3 in
      let (account, found, holds, matches) =
        find_array-parsed accounts w.arrays index parsed (ok_or-eq-ok _ _ a) in
      let read =
        parsed_bin account.data_bytes array s.active_id k entry holds offset (ok_or-eq-ok _ _ e) in
      let here =
        subst (λ i. parse_bin_for_id account.data_bytes s.active_id i ≡ ok entry.1)
          (equal_indices array.index index matches) read in
      charge_round-eq s t index account used entry.1
        (ap (λ o. ok_or o best_direction_quote_incomplete) found) (ok_or-other _ _ _ u)
        (map_err-ok _ _ here) charged

  -- The two loops go through the same states.
  in_array :
      (b : Bool) (s t : SnapshotState) (index : ℤ)
      → (if b
          then snapshot_bin w s index
          else ok (record s { active_id = next_bin s.active_id w.swap_for_y }))
        ≡ ok t
      → (if b
          then take_bin (on_accounts w accounts) (without_fee s) index
          else ok (record (without_fee s) { active_id = next_bin s.active_id w.swap_for_y }))
        ≡ ok (without_fee t)
  in_array true s t index h = snapshot_bin-eq s t index h
  in_array false s t index h = ap (λ z. ok (without_fee z)) (ok-injective h)

  snapshot_round-eq :
      (s t : SnapshotState)
      → snapshot_round w s ≡ ok t
      → quote_round (on_accounts w accounts) (without_fee s) ≡ ok (without_fee t)
  unfolding snapshot_round quote_round
  snapshot_round-eq s t h =
      let index = bin_array_index s.active_id in
      let (b, i, h1) = >>=-eq-ok (snapshot_initialized w.pair w.bitmap_extension index) _ h in
      >>=-ok (array_initialized w.pair w.bitmap_extension index) _
        (initialized-eq w.pair w.bitmap_extension index i) (in_array b s t index h1)

  unless_done :
      (b : Bool) (n : ℕ) (s t : SnapshotState)
      → ((r u : SnapshotState)
          → snapshot_rounds n w r ≡ ok u
          → quote_rounds n (on_accounts w accounts) (without_fee r) ≡ ok (without_fee u))
      → (if b then ok s else (snapshot_round w s >>= snapshot_rounds n w)) ≡ ok t
      → (if b
          then ok (without_fee s)
          else (quote_round (on_accounts w accounts) (without_fee s)
              >>= quote_rounds n (on_accounts w accounts)))
        ≡ ok (without_fee t)
  unless_done true n s t rest h = ap (λ z. ok (without_fee z)) (ok-injective h)
  unless_done false n s t rest h =
      let (r, round, h1) = >>=-eq-ok (snapshot_round w s) _ h in
      >>=-ok (quote_round (on_accounts w accounts) (without_fee s)) _ (snapshot_round-eq s r round)
        (rest r t h1)

  snapshot_rounds-eq :
      (n : ℕ) (s t : SnapshotState)
      → snapshot_rounds n w s ≡ ok t
      → quote_rounds n (on_accounts w accounts) (without_fee s) ≡ ok (without_fee t)
  unfolding snapshot_rounds quote_rounds
  snapshot_rounds-eq zero s t h = ap (λ z. ok (without_fee z)) (ok-injective h)
  snapshot_rounds-eq (suc n) s t h = unless_done (s.remaining == 0) n s t (snapshot_rounds-eq n) h

abbrev walk_of :
    LbPairState → List ParsedBinArray → Option (List ℕ) → Bool → Bool → Bool → SnapshotWalk
walk_of pair arrays extension swap_for_y on_input supported = record {
  pair = pair;
  arrays = arrays;
  bitmap_extension = extension;
  swap_for_y = swap_for_y;
  fee_on_input = on_input;
  supports_limit_orders = supported;
}

abbrev start_of : ℕ → LbPairState → ℤ → SnapshotState
start_of amount_in pair timestamp = record {
  active_id = pair.active_id;
  variable =
      update_reference pair.active_id pair.variable_parameters pair.static_parameters timestamp;
  remaining = amount_in;
  amount_out = 0;
  total_fee = 0;
  used_array_indices = [];
}

-- Where a quote on parsed arrays succeeds, the quote from the accounts that they were parsed
-- from, for the same amount, pair, bitmap extension, direction and time, succeeds with the same
-- output and the same used arrays.
pub quote_dlmm_snapshot_with_bitmap-eq :
    (amount_in : ℕ)
    → (pair : LbPairState) → (accounts : List AccountInfo) → (arrays : List ParsedBinArray)
    → (extension : Option (List ℕ)) → (swap_for_y : Bool) → (timestamp : ℤ)
    → {q : DlmmSnapshotQuote} → AreParsed accounts arrays
    → quote_dlmm_snapshot_with_bitmap amount_in pair arrays extension swap_for_y timestamp ≡ ok q
    → quote_dlmm_from_accounts amount_in pair accounts extension swap_for_y timestamp
      ≡ ok (record { amount_out = q.quote.amount_out; used_indices = q.used_array_indices })
unfolding quote_dlmm_snapshot_with_bitmap quote_dlmm_from_accounts
quote_dlmm_snapshot_with_bitmap-eq amount_in pair accounts arrays extension swap_for_y timestamp
      parsed h =
    let (on_input, f, h1) = >>=-eq-ok (fee_on_input pair swap_for_y) _ h in
    let (supported, l, h2) = >>=-eq-ok (supports_limit_orders pair) _ h1 in
    let w = walk_of pair arrays extension swap_for_y on_input supported in
    let start = start_of amount_in pair timestamp in
    let (s, rounds, h3) =
      >>=-eq-ok (snapshot_rounds max_quote_visited_bins_per_direction w start) _ h2 in
    let (spent, h4) = require->>-eq-ok (s.remaining == 0) insufficient_liquidity _ h3 in
    >>=-ok (map_err (fee_on_input pair swap_for_y) best_direction_quote_incomplete) _
      (map_err-ok _ _ f)
      (>>=-ok (map_err (supports_limit_orders pair) best_direction_quote_incomplete) _
        (map_err-ok _ _ l)
        (>>=-ok
          (quote_rounds max_quote_visited_bins_per_direction (on_accounts w accounts)
            (without_fee start))
          _
          (snapshot_rounds-eq w accounts parsed max_quote_visited_bins_per_direction start s rounds)
          (rw spent (
            ap
              (λ z.
                ok
                  (record { amount_out = z.quote.amount_out; used_indices = z.used_array_indices }))
              (ok-injective h4)))))
