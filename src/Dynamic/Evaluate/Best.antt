-- ===== src/Dynamic/Evaluate/Best.antt =====
-- The choice that `evaluate_candidates` of dynamic_amount.rs returns, against its candidates.
use mathlib.Core.Path.{subst}
use sol_arb_executor.Prelude.{
  sym, ℕ, ◌+◌, ◌-◌, ◌≤◌, ◌<◌, ◌≡◌, ◌⊎◌, inl, inr, refl, List, [], ◌∷◌, Bool, true, false, Option,
  none, some, arith, if◌then◌else◌,
}
use sol_arb_executor.Errors.{QuoteError, Result, ok, err, Result-cases}
use sol_arb_executor.Word.{checked_sub}
use sol_arb_executor.Dynamic.Types.{CurveQuote, DirectionChoice, CandidateEvaluationContext}
use sol_arb_executor.Dynamic.Evaluate.{
  better_choice, Tally, keep_better, consider, tally_one, in_range, tally_all, no_tally,
  evaluate_candidates,
}

abbrev pub Occurs : ℕ → List ℕ → Type 0
Occurs a [] = ⊥
Occurs a (x ∷ xs) = (a ≡ x) ⊎ Occurs a xs

-- The choice kept is no worse than a profit `p` for an input `a`.
abbrev pub AtLeast : Option DirectionChoice → ℕ → ℕ → Type 0
AtLeast none p a = ⊥
AtLeast (some c) p a = (p < c.profit) ⊎ ((p ≡ c.profit) × (c.amount_in ≤ a))

consider-AtLeast :
    (m x : ℕ) (q : CurveQuote) (best : Option DirectionChoice) (p a : ℕ)
    → AtLeast best p a
    → AtLeast (consider m x q best) p a
unfolding consider keep_better better_choice checked_sub
consider-AtLeast m x q none p a h = elim h [ ]
consider-AtLeast m x q (some c) p a h = ground arith

consider-new :
    (m x : ℕ) (q : CurveQuote) (best : Option DirectionChoice)
    → x + m ≤ q.amount_out
    → AtLeast (consider m x q best) (q.amount_out - x) x
unfolding consider keep_better better_choice checked_sub
consider-new m x q none h = ground arith
consider-new m x q (some c) h = ground arith

module _ (context : CandidateEvaluationContext) (evaluate : ℕ → Result QuoteError CurveQuote) where
  tally_one-AtLeast :
      (x : ℕ) (r : Result QuoteError CurveQuote) (t : Tally) (p a : ℕ)
      → AtLeast t.best p a
      → AtLeast (tally_one context x r t).best p a
  unfolding tally_one
  tally_one-AtLeast x (err e) t p a h = h
  tally_one-AtLeast x (ok q) t p a h = consider-AtLeast context.min_profit x q t.best p a h

  -- The loop's body, with the filter's test as a value.
  abbrev step : Bool → ℕ → Tally → Tally
  step b x t = if b then tally_one context x (evaluate x) t else t

  step-AtLeast :
      (b : Bool) (x : ℕ) (t : Tally) (p a : ℕ) → AtLeast t.best p a → AtLeast (step b x t).best p a
  step-AtLeast true x t p a h = tally_one-AtLeast x (evaluate x) t p a h
  step-AtLeast false x t p a h = h

  tally_all-AtLeast :
      (xs : List ℕ) (t : Tally) (p a : ℕ)
      → AtLeast t.best p a
      → AtLeast (tally_all context evaluate xs t).best p a
  unfolding tally_all
  tally_all-AtLeast [] t p a h = h
  tally_all-AtLeast (x ∷ xs) t p a h =
      tally_all-AtLeast xs (step (in_range context x) x t) p a
        (step-AtLeast (in_range context x) x t p a h)

  step-new :
      (b : Bool) (a : ℕ) (t : Tally) {q : CurveQuote}
      → b ≡ true
      → evaluate a ≡ ok q
      → a + context.min_profit ≤ q.amount_out
      → AtLeast (step b a t).best (q.amount_out - a) a
  unfolding tally_one
  step-new false a t inside quoted worth = cc
  step-new true a t {q} inside quoted worth =
      subst (λ r. AtLeast (tally_one context a r t).best (q.amount_out - a) a) (sym quoted)
        (consider-new context.min_profit a q t.best worth)

  tally_all-covers :
      (xs : List ℕ) (t : Tally) (a : ℕ) {q : CurveQuote}
      → Occurs a xs
      → in_range context a ≡ true
      → evaluate a ≡ ok q
      → a + context.min_profit ≤ q.amount_out
      → AtLeast (tally_all context evaluate xs t).best (q.amount_out - a) a
  unfolding tally_all
  tally_all-covers [] t a here inside quoted worth = elim here [ ]
  tally_all-covers (x ∷ xs) t a {q} (inl same) inside quoted worth =
      subst (λ y. AtLeast (tally_all context evaluate (y ∷ xs) t).best (q.amount_out - a) a) same
        (tally_all-AtLeast xs (step (in_range context a) a t) (q.amount_out - a) a
          (step-new (in_range context a) a t inside quoted worth))
  tally_all-covers (x ∷ xs) t a (inr later) inside quoted worth =
      tally_all-covers xs (step (in_range context x) x t) a later inside quoted worth

-- A choice that stands for a candidate: its quote, its profit and its range are as recorded.
pub record IsHonest (context : CandidateEvaluationContext)
    (evaluate : ℕ → Result QuoteError CurveQuote) (candidates : List ℕ) (c : DirectionChoice)
    : Type 0 where
  pub offered : Occurs c.amount_in candidates
  pub above_min : context.min_amount ≤ c.amount_in
  pub covered : c.amount_in ≤ context.largest_complete_amount
  pub quoted :
      evaluate c.amount_in
      ≡ ok (record { amount_out = c.amount_out; used_indices = c.used_indices })
  pub profit_exact : c.amount_in + c.profit ≡ c.amount_out
  pub profit_enough : context.min_profit ≤ c.profit

abbrev pub HonestBest :
    CandidateEvaluationContext
    → (ℕ → Result QuoteError CurveQuote)
    → List ℕ
    → Option DirectionChoice
    → Type 0
HonestBest context evaluate candidates none = Unit {0}
HonestBest context evaluate candidates (some c) = IsHonest context evaluate candidates c

abbrev new_choice : ℕ → CurveQuote → DirectionChoice
new_choice x q = record {
  amount_in = x;
  amount_out = q.amount_out;
  profit = q.amount_out - x;
  used_indices = q.used_indices;
}

consider-cases :
    (m x : ℕ) (q : CurveQuote) (best : Option DirectionChoice)
    → (consider m x q best ≡ best)
      ⊎ ((x + m ≤ q.amount_out) × (consider m x q best ≡ some (new_choice x q)))
unfolding consider keep_better checked_sub
consider-cases m x q none = ground arith
consider-cases m x q (some c) = ground arith

module _ (context : CandidateEvaluationContext) (evaluate : ℕ → Result QuoteError CurveQuote)
    (all : List ℕ) where
  -- Whatever holds of the choice kept and of a new one with its quote holds of the better one.
  consider-Honest :
      (x : ℕ) (q : CurveQuote) (best : Option DirectionChoice)
      → Occurs x all
      → in_range context x ≡ true
      → evaluate x ≡ ok q
      → HonestBest context evaluate all best
      → HonestBest context evaluate all (consider context.min_profit x q best)
  consider-Honest x q best here inside quoted h =
      elim (consider-cases context.min_profit x q best) [
        | inl kept ↦ subst (HonestBest context evaluate all) (sym kept) h
        | inr (worth, new) ↦ subst (HonestBest context evaluate all) (sym new) (record {
          offered = here;
          above_min = ground arith;
          covered = ground arith;
          quoted = quoted;
          profit_exact = omega arith;
          profit_enough = omega arith;
        })
      ]

  abbrev Kept : ℕ → Tally → Result QuoteError CurveQuote → Type 0
  Kept x t r = HonestBest context evaluate all (tally_one context x r t).best

  step-Honest :
      (b : Bool) (x : ℕ) (t : Tally)
      → in_range context x ≡ b
      → Occurs x all
      → HonestBest context evaluate all t.best
      → HonestBest context evaluate all (step context evaluate b x t).best
  unfolding tally_one
  step-Honest false x t inside here h = h
  step-Honest true x t inside here h = elim (Result-cases (evaluate x)) [
    | inl (q, quoted) ↦
        subst (Kept x t) (sym quoted) (consider-Honest x q t.best here inside quoted h)
    | inr (e, failed) ↦ subst (Kept x t) (sym failed) h
  ]

  tally_all-Honest :
      (xs : List ℕ) (t : Tally)
      → ((x : ℕ) → Occurs x xs → Occurs x all)
      → HonestBest context evaluate all t.best
      → HonestBest context evaluate all (tally_all context evaluate xs t).best
  unfolding tally_all
  tally_all-Honest [] t within h = h
  tally_all-Honest (x ∷ xs) t within h =
      tally_all-Honest xs (step context evaluate (in_range context x) x t)
        (λ y later. within y (inr later))
        (step-Honest (in_range context x) x t refl (within x (inl refl)) h)

-- The choice that `evaluate_candidates` returns is one of the candidates, inside the range, with its
-- own quote and a profit of at least the minimum.
pub evaluate_candidates-HonestBest :
    (candidates : List ℕ) (context : CandidateEvaluationContext)
    (evaluate : ℕ → Result QuoteError CurveQuote)
    → HonestBest context evaluate candidates (evaluate_candidates candidates context evaluate).best
unfolding evaluate_candidates
evaluate_candidates-HonestBest candidates context evaluate =
    tally_all-Honest context evaluate candidates candidates no_tally (λ x h. h) tt

-- Every candidate in the range that can be quoted with the minimum profit is matched: the choice
-- returned has a larger profit, or the same profit for an input that is no larger.
pub evaluate_candidates-AtLeast :
    (candidates : List ℕ) (context : CandidateEvaluationContext)
    (evaluate : ℕ → Result QuoteError CurveQuote) (a : ℕ) {q : CurveQuote}
    → Occurs a candidates
    → context.min_amount ≤ a
    → a ≤ context.largest_complete_amount
    → evaluate a ≡ ok q
    → a + context.min_profit ≤ q.amount_out
    → AtLeast (evaluate_candidates candidates context evaluate).best (q.amount_out - a) a
unfolding evaluate_candidates
evaluate_candidates-AtLeast candidates context evaluate a here lower upper quoted worth =
    tally_all-covers context evaluate candidates no_tally a here (ground arith) quoted worth
