-- ===== src/Expression/Compare/Ints.antt =====
-- `_compare` at two integers: `==` is exact, and the ordered operators go through floats.
use agentwire_cue.Prelude.{◌≤◌, ◌^◌, ◌+◌, ◌≡◌, ◌≢◌, ◌↔◌, refl, Bool, true, not, some, arith}
use agentwire_cue.Prelude.Int.{ℤ, ◌≤ℤ◌, ◌<ℤ◌, pos_part, neg_part, int_eq, int_ltb, int_leb}
use agentwire_cue.Value.{Runtime, int}
use agentwire_cue.Outcome.{ok}
use agentwire_cue.Expression.Ast.{CmpOp, eq, ne, gt, lt, ge, le}
use agentwire_cue.Expression.Compare.{compare}

-- |n| ≤ 2^53: the integers that a double holds exactly.
abbrev pub InDoubleRange : ℤ → Type 0
InDoubleRange n = pos_part n + neg_part n ≤ 2 ^ 53

-- Python's documented behaviour on that range: float(n) is exact, so that floats compare as the
-- integers do.
pub record ExactDoubles (rt : Runtime) : Type 0 where
  pub convert : (n : ℤ) → InDoubleRange n → (x : rt.Float) × (rt.of_int n ≡ some x)
  pub lt_exact :
      (m n : ℤ) (x y : rt.Float)
      → InDoubleRange m
      → InDoubleRange n
      → rt.of_int m ≡ some x
      → rt.of_int n ≡ some y
      → rt.float_lt x y ≡ int_ltb m n
  pub le_exact :
      (m n : ℤ) (x y : rt.Float)
      → InDoubleRange m
      → InDoubleRange n
      → rt.of_int m ≡ some x
      → rt.of_int n ≡ some y
      → rt.float_le x y ≡ int_leb m n

-- What an operator says of two integers.
abbrev pub Holds : CmpOp → ℤ → ℤ → Type 0
Holds eq m n = m ≡ n
Holds ne m n = m ≢ n
Holds gt m n = n <ℤ m
Holds lt m n = m <ℤ n
Holds ge m n = n ≤ℤ m
Holds le m n = m ≤ℤ n

int_test : CmpOp → ℤ → ℤ → Bool
int_test eq m n = int_eq m n
int_test ne m n = not (int_eq m n)
int_test gt m n = int_ltb n m
int_test lt m n = int_ltb m n
int_test ge m n = int_leb n m
int_test le m n = int_leb m n

int_test-Holds : (op : CmpOp) (m n : ℤ) → (int_test op m n ≡ true) ↔ Holds op m n
unfolding int_test
int_test-Holds eq m n = ground arith
int_test-Holds ne m n = ground arith
int_test-Holds gt m n = ground arith
int_test-Holds lt m n = ground arith
int_test-Holds ge m n = ground arith
int_test-Holds le m n = ground arith

module _ {rt : Runtime} (exact : ExactDoubles rt) where
  compare-int_test :
      (op : CmpOp) (m n : ℤ)
      → InDoubleRange m
      → InDoubleRange n
      → compare {rt = rt} (int m) op (int n) ≡ ok (int_test op m n)
  unfolding compare int_test
  compare-int_test eq m n hm hn = refl
  compare-int_test ne m n hm hn = refl
  compare-int_test op m n hm hn =
      let (x, hx) = exact.convert m hm in
      let (y, hy) = exact.convert n hn in
      ground (
        arith,
        exact.lt_exact m n x y hm hn hx hy,
        exact.lt_exact n m y x hn hm hy hx,
        exact.le_exact m n x y hm hn hx hy,
        exact.le_exact n m y x hn hm hy hx,
      )

  -- Two integers of at most 2^53 in absolute value are compared exactly, by all six operators, and
  -- no comparison raises.
  pub compare_exact :
      (op : CmpOp) (m n : ℤ)
      → InDoubleRange m
      → InDoubleRange n
      → (b : Bool) × (compare {rt = rt} (int m) op (int n) ≡ ok b) × ((b ≡ true) ↔ Holds op m n)
  unfolding compare
  compare_exact op m n hm hn =
      (int_test op m n, compare-int_test op m n hm hn, int_test-Holds op m n)
