-- ===== src/Dynamic/Search/Endpoints.antt =====
-- The first two candidates of a search of dynamic_amount.rs stay candidates.
use mathlib.Core.Path.{subst}
use sol_arb_executor.Prelude.{
  ℕ, ◌<◌, ◌≤◌, ◌≡◌, ◌⊎◌, refl, arith, List, [], ◌∷◌, ◌++◌, Bool, true, false, Option, none, some,
  inl, inr, Bool-cases, Option-cases, pos→==, lt→ltb, leb, ltb, length, ◌==◌, ◌||◌, ◌&&◌,
  if◌then◌else◌,
}
use sol_arb_executor.Dynamic.Types.{MarketState, DlmmSegment, max_dynamic_candidates}
use sol_arb_executor.Dynamic.Candidates.{contains, push_unique, push_between, push_neighborhood}
use sol_arb_executor.Dynamic.Boundary.{pump_input_at_or_below_target_out}
use sol_arb_executor.Dynamic.Evaluate.Best.{Occurs}
use sol_arb_executor.Dynamic.Search.{
  Gathered, endpoints, gather_boundary, gather_interior, forward_start, gather_forward_at,
  gather_forward, gather_reverse_at, gather_reverse, forward_interior_candidate,
  reverse_interior_candidate,
}

Occurs-before : (a : ℕ) (xs ys : List ℕ) → Occurs a xs → Occurs a (xs ++ ys)
Occurs-before a [] ys here = elim here [ ]
Occurs-before a (x ∷ xs) ys (inl same) = inl same
Occurs-before a (x ∷ xs) ys (inr later) = inr (Occurs-before a xs ys later)

Occurs-last : (a : ℕ) (xs : List ℕ) → Occurs a (xs ++ a ∷ [])
Occurs-last a [] = inl refl
Occurs-last a (x ∷ xs) = inr (Occurs-last a xs)

if-Occurs :
    (b : Bool) (a : ℕ) (xs ys : List ℕ)
    → Occurs a xs
    → Occurs a ys
    → Occurs a (if b then xs else ys)
if-Occurs true a xs ys p q = p
if-Occurs false a xs ys p q = q

push_unique-Occurs : (a : ℕ) (xs : List ℕ) (x : ℕ) → Occurs a xs → Occurs a (push_unique xs x)
unfolding push_unique
push_unique-Occurs a xs x p = if-Occurs (x == 0 || contains xs x) a xs _ p (
    if-Occurs (ltb (length xs) max_dynamic_candidates) a (xs ++ x ∷ []) xs
      (Occurs-before a xs (x ∷ []) p) p)

contains-Occurs : (a : ℕ) (xs : List ℕ) → contains xs a ≡ true → Occurs a xs
unfolding contains
contains-Occurs a [] h = cc
contains-Occurs a (x ∷ xs) h = elim (Bool-cases (x == a)) [
  | inl same ↦ inl (ground arith)
  | inr other ↦ inr (contains-Occurs a xs (rw (contains, other) at h))
]

push_between-Occurs :
    (lo hi a : ℕ) (xs : List ℕ) (x : ℕ) → Occurs a xs → Occurs a (push_between lo hi xs x)
unfolding push_between
push_between-Occurs lo hi a xs x p =
    if-Occurs (leb lo x && leb x hi) a (push_unique xs x) xs (push_unique-Occurs a xs x p) p

push_neighborhood-Occurs :
    (lo hi a : ℕ) (xs : List ℕ) (x : ℕ) → Occurs a xs → Occurs a (push_neighborhood xs x lo hi)
unfolding push_neighborhood
push_neighborhood-Occurs lo hi a xs x p =
    push_between-Occurs lo hi a _ _
      (push_between-Occurs lo hi a _ _ (push_between-Occurs lo hi a xs _ p))

push_unique-new :
    (a : ℕ) (xs : List ℕ) → 0 < a → length xs < max_dynamic_candidates → Occurs a (push_unique xs a)
unfolding push_unique
push_unique-new a xs pos room = elim (Bool-cases (contains xs a)) [
  | inl there ↦ rw (push_unique, pos→== a pos, there) (contains-Occurs a xs there)
  | inr fresh ↦
      rw (push_unique, pos→== a pos, fresh, lt→ltb (length xs) max_dynamic_candidates room)
        (Occurs-last a xs)
]

push_unique-short : (x : ℕ) → length (push_unique [] x) ≤ 1
unfolding push_unique contains
push_unique-short x = ground arith

-- The two endpoints, where they are not zero.
pub endpoints-Occurs :
    (lo largest a : ℕ)
    → 0 < a
    → (a ≡ lo) ⊎ (a ≡ largest)
    → Occurs a (endpoints lo largest).candidates
endpoints-Occurs lo largest a pos (inl same) =
    push_unique-Occurs a (push_unique [] lo) largest
      (subst (λ x. Occurs a (push_unique [] x)) same (push_unique-new a [] pos (omega arith)))
endpoints-Occurs lo largest a pos (inr same) =
    subst (λ x. Occurs a (push_unique (push_unique [] lo) x)) same
      (push_unique-new a (push_unique [] lo) pos (omega (arith, push_unique-short lo)))

if-Gathered :
    (b : Bool) (a : ℕ) (g h : Gathered)
    → Occurs a g.candidates
    → Occurs a h.candidates
    → Occurs a (if b then g else h).candidates
if-Gathered true a g h p q = p
if-Gathered false a g h p q = q

module _ (lo largest a : ℕ) where
  gather_boundary-Occurs :
      (x : ℕ) (g : Gathered)
      → Occurs a g.candidates
      → Occurs a (gather_boundary lo largest x g).candidates
  unfolding gather_boundary
  gather_boundary-Occurs x g p =
      if-Gathered (leb lo x && leb x largest) a _ g (push_unique-Occurs a g.candidates x p) p

  gather_interior-Occurs :
      (i : Option ℕ) (g : Gathered)
      → Occurs a g.candidates
      → Occurs a (gather_interior lo largest i g).candidates
  unfolding gather_interior
  gather_interior-Occurs none g p = p
  gather_interior-Occurs (some x) g p =
      if-Gathered (leb lo x && leb x largest) a _ g
        (push_neighborhood-Occurs lo largest a g.candidates x p) p

  gather_reverse_at-Occurs :
      (market : MarketState) (s : DlmmSegment) (g : Gathered)
      → Occurs a g.candidates
      → Occurs a (gather_reverse_at market lo largest s g).candidates
  unfolding gather_reverse_at
  gather_reverse_at-Occurs market s g p =
      if-Gathered (ltb s.input_end lo || ltb largest s.input_start) a g _ p (
        gather_interior-Occurs (reverse_interior_candidate market s) _
          (gather_boundary-Occurs s.input_end g p))

  pub gather_reverse-Occurs :
      (market : MarketState) (segments : List DlmmSegment) (g : Gathered)
      → Occurs a g.candidates
      → Occurs a (gather_reverse market lo largest segments g).candidates
  unfolding gather_reverse
  gather_reverse-Occurs market [] g p = p
  gather_reverse-Occurs market (s ∷ segments) g p =
      gather_reverse-Occurs market segments _ (gather_reverse_at-Occurs market s g p)

  gather_forward_at-Occurs :
      (market : MarketState) (s : DlmmSegment) (first last : ℕ) (g : Gathered)
      → Occurs a g.candidates
      → Occurs a (gather_forward_at market lo largest s first last g).candidates
  unfolding gather_forward_at
  gather_forward_at-Occurs market s first last g p =
      if-Gathered (ltb last lo || ltb largest first) a g _ p (
        gather_interior-Occurs (forward_interior_candidate market s first last) _
          (gather_boundary-Occurs last g p))

  pub gather_forward-Occurs :
      (market : MarketState) (segments : List DlmmSegment) (previous : Option ℕ) (g : Gathered)
      → Occurs a g.candidates
      → Occurs a (gather_forward market lo largest segments previous g).candidates
  unfolding gather_forward
  gather_forward-Occurs market [] previous g p = p
  gather_forward-Occurs market (s ∷ segments) previous g p =
      elim (Option-cases (forward_start market s previous)) [
        | inl no_start ↦
            rw (gather_forward, no_start) (gather_forward-Occurs market segments previous g p)
        | inr (first, start) ↦
            elim (Option-cases (pump_input_at_or_below_target_out market s.input_end)) [
              | inl no_end ↦
                  rw (gather_forward, start, no_end)
                    (gather_forward-Occurs market segments previous g p)
              | inr (last, end) ↦
                  rw (gather_forward, start, end)
                    (gather_forward-Occurs market segments (some last) _
                      (gather_forward_at-Occurs market s first last g p))
            ]
      ]
