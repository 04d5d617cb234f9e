-- ===== src/Dynamic/Curve/Chain.antt =====
-- When the segments of a curve join up, and how `push` extends such a curve.
use sol_arb_executor.Prelude.{ℕ, zero, suc, ◌<◌, ◌≡◌, refl, arith, List, [], ◌∷◌, ◌++◌, length}
use sol_arb_executor.Dynamic.Types.{DlmmSegment}
use sol_arb_executor.Dynamic.Curve.{segment_at}

-- The segments run on from the input `i` and the output `o`, each longer than nothing.
pub data Chain : ℕ → ℕ → List DlmmSegment → Type 0 where
  done : {i o : ℕ} → Chain i o []
  link :
      {i o : ℕ} {s : DlmmSegment} {ss : List DlmmSegment}
      → s.input_start ≡ i
      → s.output_start ≡ o
      → i < s.input_end
      → o < s.output_end
      → Chain s.input_end s.output_end ss
      → Chain i o (s ∷ ss)

-- Where a chain from `i` ends.
abbrev pub input_after : ℕ → List DlmmSegment → ℕ
input_after i [] = i
input_after i (s ∷ ss) = input_after s.input_end ss

abbrev pub output_after : ℕ → List DlmmSegment → ℕ
output_after o [] = o
output_after o (s ∷ ss) = output_after s.output_end ss

pub Chain-append :
    {i o : ℕ} {ss : List DlmmSegment} (s : DlmmSegment)
    → Chain i o ss
    → s.input_start ≡ input_after i ss
    → s.output_start ≡ output_after o ss
    → s.input_start < s.input_end
    → s.output_start < s.output_end
    → Chain i o (ss ++ s ∷ [])
Chain-append s done a b p q = link a b (omega arith) (omega arith) done
Chain-append s (link c d e f rest) a b p q = link c d e f (Chain-append s rest a b p q)

pub input_after-append :
    (i : ℕ) (ss : List DlmmSegment) (s : DlmmSegment) → input_after i (ss ++ s ∷ []) ≡ s.input_end
input_after-append i [] s = refl
input_after-append i (t ∷ ss) s = input_after-append t.input_end ss s

pub output_after-append :
    (o : ℕ) (ss : List DlmmSegment) (s : DlmmSegment) → output_after o (ss ++ s ∷ []) ≡ s.output_end
output_after-append o [] s = refl
output_after-append o (t ∷ ss) s = output_after-append t.output_end ss s

-- Every segment of a chain ends after its start.
pub Chain-lt :
    {i o : ℕ} {ss : List DlmmSegment} (j : ℕ)
    → Chain i o ss
    → j < length ss
    → i < (segment_at ss j).input_end
Chain-lt j done h = absurd (omega arith)
Chain-lt zero (link a b p q rest) h = p
Chain-lt (suc j) (link a b p q rest) h = omega (arith, Chain-lt j rest (omega arith))

-- The input ends of a chain increase strictly, as the comment in `quote` says.
pub Chain-increasing :
    {i o : ℕ} {ss : List DlmmSegment} (j k : ℕ)
    → Chain i o ss
    → j < k
    → k < length ss
    → (segment_at ss j).input_end < (segment_at ss k).input_end
Chain-increasing j k done h l = absurd (omega arith)
Chain-increasing j zero (link a b p q rest) h l = absurd (omega arith)
Chain-increasing zero (suc k) (link a b p q rest) h l = Chain-lt k rest (omega arith)
Chain-increasing (suc j) (suc k) (link a b p q rest) h l =
    Chain-increasing j k rest (omega arith) (omega arith)
