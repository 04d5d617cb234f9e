-- ===== src/Dynamic/Build/Rounds.antt =====
-- The invariant of the walk in `build_curve` of dynamic_amount.rs, round by round.
use mathlib.Core.Path.{subst}
use sol_arb_executor.Prelude.{
  ℕ, zero, suc, ◌+◌, ◌≤◌, ◌<◌, ◌≡◌, refl, ◌∙◌, arith, [], ◌∷◌, ◌++◌, Bool, some, length,
  length-append, leb, leb→le, ltb, ltb→lt, Bool-cases, Option-cases, inl, inr, if◌then◌else◌, ◌||◌,
  ◌==◌,
}
use sol_arb_executor.Prelude.Int.{ℤ}
use sol_arb_executor.Errors.{
  QuoteError, ArbError, insufficient_liquidity, invalid_input, math_overflow, Result, ok, err,
  >>=-eq-ok, ok_or-eq-ok, ok-injective, arithmetic_overflow, ok_or, map_err,
  best_direction_quote_incomplete,
}
use sol_arb_executor.Word.{u64_max, u64_size, fits, checked_add_u64}
use sol_arb_executor.Quote.Types.{Bin, QuoteResult, DlmmFeeParameters}
use sol_arb_executor.Quote.Dlmm.{
  dlmm_total_fee_rate, dlmm_bin_quote_capacity, dlmm_quote_exact_in_partial,
}
use sol_arb_executor.Accounts.Types.{max_quote_visited_bins_per_direction}
use sol_arb_executor.Accounts.Bins.{parse_bin_for_id, bin_array_index}
use sol_arb_executor.Accounts.Volatility.{dlmm_fee_parameters, update_volatility_accumulator}
use sol_arb_executor.Dynamic.Types.{DlmmSegment, DlmmCurve, CurveStopReason, input_limit_reached}
use sol_arb_executor.Dynamic.Curve.{push}
use sol_arb_executor.Dynamic.Curve.Chain.{
  Chain, input_after, output_after, Chain-append, input_after-append, output_after-append,
}
use sol_arb_executor.Dynamic.Build.{
  Walk, WalkState, Round, go_on, leave, advance, add_segment, on_capacity, visit_bin, visit_array,
  find_array, note_array, array_initialized, walk_round, after_round, walk,
}

-- The curve of a state is a chain that ends at the running totals.
pub record Joined (s : WalkState) : Type 0 where
  pub chain : Chain 0 0 s.curve.segments
  pub ends_in : s.total_in ≡ input_after 0 s.curve.segments
  pub ends_out : s.total_out ≡ output_after 0 s.curve.segments
  pub few : length s.curve.segments ≤ max_quote_visited_bins_per_direction

-- What holds after a round: a loop left for the input limit has reached it.
abbrev pub JoinedRound : Walk → Round → Type 0
JoinedRound w (go_on s) = Joined s
JoinedRound w (leave reason s) =
    Joined s × (reason ≡ input_limit_reached → w.input_limit ≤ s.total_in)

checked_add_u64-some : (a b : ℕ) {c : ℕ} → checked_add_u64 a b ≡ some c → c ≡ a + b
unfolding checked_add_u64
checked_add_u64-some a b h = ground arith

push-eq-ok :
    (s : DlmmSegment) (c : DlmmCurve) {d : DlmmCurve}
    → push s c ≡ ok d
    → (d.segments ≡ c.segments ++ s ∷ [])
      × (length c.segments < max_quote_visited_bins_per_direction)
unfolding push
push-eq-ok s c h =
    elim (Bool-cases (ltb (length c.segments) max_quote_visited_bins_per_direction)) [
      | inl room ↦ (cc (rw room at h), ltb→lt _ _ room)
      | inr full ↦ cc (rw full at h)
    ]

positive :
    (z : QuoteResult) {c : QuoteResult}
    → (if z.amount_in == 0 || z.amount_out == 0 then err insufficient_liquidity else ok z) ≡ ok c
    → (0 < c.amount_in) × (0 < c.amount_out)
positive z h = ground arith

-- A measured capacity takes something and gives something.
dlmm_bin_quote_capacity-positive :
    (bin : Bin) (s f : Bool) (p : DlmmFeeParameters) {c : QuoteResult}
    → dlmm_bin_quote_capacity bin s f p ≡ ok c
    → (0 < c.amount_in) × (0 < c.amount_out)
unfolding dlmm_bin_quote_capacity
dlmm_bin_quote_capacity-positive bin s f p h =
    let (z, quoted, kept) = >>=-eq-ok (dlmm_quote_exact_in_partial u64_max (bin ∷ []) s f p) _ h in
    positive z kept

-- Only the totals and the curve matter.
same_curve :
    (s t : WalkState)
    → t.total_in ≡ s.total_in
    → t.total_out ≡ s.total_out
    → t.curve ≡ s.curve
    → Joined s
    → Joined t
same_curve s t a b c j = record {
  chain = rw c j.chain;
  ends_in = rw (a, c) j.ends_in;
  ends_out = rw (b, c) j.ends_out;
  few = rw c j.few;
}

-- A segment that starts at the totals and ends beyond them can be appended.
segment-Joined :
    (s t : WalkState) (d : DlmmSegment)
    → d.input_start ≡ s.total_in
    → d.output_start ≡ s.total_out
    → s.total_in < d.input_end
    → s.total_out < d.output_end
    → t.total_in ≡ d.input_end
    → t.total_out ≡ d.output_end
    → t.curve.segments ≡ s.curve.segments ++ d ∷ []
    → length s.curve.segments < max_quote_visited_bins_per_direction
    → Joined s
    → Joined t
segment-Joined s t d a b p q e f g room j = record {
  chain = rw g (
      Chain-append d j.chain (a ∙ j.ends_in) (b ∙ j.ends_out) (omega (arith, a, p))
        (omega (arith, b, q)));
  ends_in = rw (g, input_after-append 0 s.curve.segments d) e;
  ends_out = rw (g, output_after-append 0 s.curve.segments d) f;
  few = rw (g, length-append s.curve.segments (d ∷ [])) (omega (arith, room));
}

-- The end of a round that may leave the loop.
left_or_on :
    (w : Walk) (t : WalkState) {r : Round}
    → (if leb w.input_limit t.total_in then leave input_limit_reached t else go_on (advance w t))
      ≡ r
    → Joined t
    → JoinedRound w r
left_or_on w t h j = elim (Bool-cases (leb w.input_limit t.total_in)) [
  | inl reached ↦ rw (← h, reached) (j, λ _. leb→le _ _ reached)
  | inr below ↦ rw (← h, below) (same_curve t (advance w t) refl refl refl j)
]

add_segment-Joined :
    (w : Walk) (s : WalkState) (bin : Bin) (rate : ℕ) (c : QuoteResult) {r : Round}
    → Joined s
    → 0 < c.amount_in
    → 0 < c.amount_out
    → add_segment w s bin rate c ≡ ok r
    → JoinedRound w r
unfolding add_segment
add_segment-Joined w s bin rate c j in_pos out_pos h =
    let (ie, added_in, h1) =
      >>=-eq-ok (ok_or (checked_add_u64 s.total_in c.amount_in) arithmetic_overflow) _ h in
    let (oe, added_out, h2) =
      >>=-eq-ok (ok_or (checked_add_u64 s.total_out c.amount_out) arithmetic_overflow) _ h1 in
    let (d, pushed, h3) = >>=-eq-ok (push _ s.curve) _ h2 in
    let (grown, room) = push-eq-ok _ s.curve pushed in
    let in_end : ie ≡ s.total_in + c.amount_in =
      checked_add_u64-some _ _ (ok_or-eq-ok _ arithmetic_overflow added_in) in
    let out_end : oe ≡ s.total_out + c.amount_out =
      checked_add_u64-some _ _ (ok_or-eq-ok _ arithmetic_overflow added_out) in
    let t : WalkState = record s { total_in = ie; total_out = oe; curve = d } in
    left_or_on w t (ok-injective h3) (
      segment-Joined s t _ refl refl (omega (arith, in_end, in_pos))
        (omega (arith, out_end, out_pos)) refl refl grown room j)

advance-Joined : (w : Walk) (s t : WalkState) → t ≡ advance w s → Joined s → Joined t
advance-Joined w s t h j = rw h (same_curve s (advance w s) refl refl refl j)

on_capacity-Joined :
    (w : Walk) (s : WalkState) (bin : Bin) (rate : ℕ) (m : Result QuoteError QuoteResult)
    {r : Round}
    → Joined s
    → ((c : QuoteResult) → m ≡ ok c → (0 < c.amount_in) × (0 < c.amount_out))
    → on_capacity w s bin rate m ≡ ok r
    → JoinedRound w r
unfolding on_capacity
on_capacity-Joined w s bin rate (ok c) j pos h =
    let (in_pos, out_pos) = pos c refl in add_segment-Joined w s bin rate c j in_pos out_pos h
on_capacity-Joined w s bin rate (err insufficient_liquidity) j pos h =
    rw (← ok-injective h) (same_curve s (advance w s) refl refl refl j)
on_capacity-Joined w s bin rate (err invalid_input) j pos h = cc
on_capacity-Joined w s bin rate (err math_overflow) j pos h = cc

visit_bin-Joined :
    (w : Walk) (s : WalkState) (bin : Bin) {r : Round}
    → Joined s
    → visit_bin w s bin ≡ ok r
    → JoinedRound w r
unfolding visit_bin
visit_bin-Joined w s bin j h =
    let p =
      dlmm_fee_parameters w.pair
        (update_volatility_accumulator s.active_id s.variable w.pair.static_parameters) in
    let (rate, priced, h1) =
      >>=-eq-ok (map_err (dlmm_total_fee_rate p) best_direction_quote_incomplete) _ h in
    let (fee_rate, fitted, h2) =
      >>=-eq-ok (ok_or (fits u64_size rate) best_direction_quote_incomplete) _ h1 in
    on_capacity-Joined w _ _ fee_rate _ (same_curve s _ refl refl refl j)
      (λ c. dlmm_bin_quote_capacity-positive _ w.swap_for_y w.fee_on_input p) h2

visit_array-Joined :
    (w : Walk) (s : WalkState) (i : ℤ) {r : Round}
    → Joined s
    → visit_array w s i ≡ ok r
    → JoinedRound w r
unfolding visit_array
visit_array-Joined w s i j h = elim (Option-cases (find_array w.arrays i)) [
  | inl missing ↦ rw (← ok-injective (rw (visit_array, missing) at h)) (j, λ e. cc)
  | inr (account, found) ↦ elim (Option-cases (note_array s.used_indices i)) [
    | inl full ↦ rw (← ok-injective (rw (visit_array, found, full) at h)) (j, λ e. cc)
    | inr (used, noted) ↦
        let (bin, parsed, rest) =
          >>=-eq-ok
            (map_err (parse_bin_for_id account.data_bytes s.active_id i)
              best_direction_quote_incomplete)
            _ (rw (visit_array, found, noted) at h) in
        visit_bin-Joined w _ bin (same_curve s _ refl refl refl j) rest
  ]
]

walk_round-Joined :
    (w : Walk) (s : WalkState) {r : Round} → Joined s → walk_round w s ≡ ok r → JoinedRound w r
unfolding walk_round
walk_round-Joined w s j h =
    let (initialized, known, rest) =
      >>=-eq-ok (array_initialized w.pair w.bitmap_extension (bin_array_index s.active_id)) _ h in
    elim (Bool-cases initialized) [
      | inl set ↦ visit_array-Joined w _ _ (same_curve s _ refl refl refl j) (rw set at rest)
      | inr unset ↦ rw (← ok-injective (rw unset at rest)) (same_curve s _ refl refl refl j)
    ]

after_round-Joined :
    (w : Walk) (r : Round) (rest : WalkState → Result ArbError (CurveStopReason × WalkState))
    {reason : CurveStopReason} {t : WalkState}
    → JoinedRound w r
    → ((s : WalkState) → Joined s → rest s ≡ ok (reason, t) → JoinedRound w (leave reason t))
    → after_round r rest ≡ ok (reason, t)
    → JoinedRound w (leave reason t)
after_round-Joined w (go_on s) rest j more h = more s j h
after_round-Joined w (leave reason s) rest j more h =
    subst (λ p. JoinedRound w (leave p.0 p.1)) (ok-injective h) j

-- The whole walk, whatever its reason to stop.
pub walk-Joined :
    (rounds : ℕ) (w : Walk) (s : WalkState) {reason : CurveStopReason} {t : WalkState}
    → Joined s
    → walk rounds w s ≡ ok (reason, t)
    → JoinedRound w (leave reason t)
unfolding walk
walk-Joined zero w s j h = subst (λ p. JoinedRound w (leave p.0 p.1)) (ok-injective h) (j, λ e. cc)
walk-Joined (suc rounds) w s j h =
    let (r, first, rest) = >>=-eq-ok (walk_round w s) _ h in
    after_round-Joined w r (walk rounds w) (walk_round-Joined w s j first)
      (λ t. walk-Joined rounds w t) rest
