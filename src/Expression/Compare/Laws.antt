-- ===== src/Expression/Compare/Laws.antt =====
-- Laws of `_compare`: the operators against one another, and against the order of the integers.
use agentwire_cue.Prelude.{◌≡◌, ap, Bool, true, false, arith, eq_iff, String, ◌==◌}
use agentwire_cue.Prelude.Int.{ℤ, int_eq}
use agentwire_cue.Value.{Runtime, Value, bool, int, float, str}
use agentwire_cue.Outcome.{ok}
use agentwire_cue.Expression.Ast.{CmpOp, eq, ne, gt, lt, ge, le}
use agentwire_cue.Expression.Compare.{compare, equal, ordered}

-- The operator that says the same of the operands the other way round.
abbrev pub flip : CmpOp → CmpOp
flip eq = eq
flip ne = ne
flip gt = lt
flip lt = gt
flip ge = le
flip le = ge

-- Comparison of floats is symmetric in Python.
abbrev pub FloatEqSymmetric : Runtime → Type 0
FloatEqSymmetric rt = (x y : rt.Float) → rt.float_eq x y ≡ rt.float_eq y x

str_eq_comm : (s t : String) → (s == t) ≡ (t == s)
str_eq_comm s t = ground (arith, eq_iff s t, eq_iff t s)

int_eq_comm : (m n : ℤ) → int_eq m n ≡ int_eq n m
int_eq_comm m n = ground arith

module _ {rt : Runtime} (symmetric : FloatEqSymmetric rt) where
  equal_comm : (v w : Value rt) → equal v w ≡ equal w v
  unfolding equal
  equal_comm Value.none w = ground arith
  equal_comm (int m) (int n) = ap ok (int_eq_comm m n)
  equal_comm (int m) w = grind (arith, symmetric)
  equal_comm (float x) w = grind (arith, symmetric)
  equal_comm (str s) (str t) = ap ok (str_eq_comm s t)
  equal_comm _ w = ground arith

  -- Turning the operands round and the operator with them changes nothing: neither the result nor
  -- the exception that a conversion to float raises.
  pub compare-flip : (op : CmpOp) (v w : Value rt) → compare v op w ≡ compare w (flip op) v
  unfolding compare
  compare-flip eq v w = equal_comm v w
  compare-flip ne v w = cc (equal_comm v w)
  compare-flip gt v w = ground arith
  compare-flip lt v w = ground arith
  compare-flip ge v w = ground arith
  compare-flip le v w = ground arith

-- Values of kinds that no operator relates: neither two numbers, nor two texts, nor two bools, nor
-- two Nones.
abbrev pub SameKind : {rt : Runtime} → Value rt → Value rt → Type 0
SameKind Value.none Value.none = Unit
SameKind (bool _) (bool _) = Unit
SameKind (str _) (str _) = Unit
SameKind (int _) (int _) = Unit
SameKind (int _) (float _) = Unit
SameKind (float _) (int _) = Unit
SameKind (float _) (float _) = Unit
SameKind _ _ = ⊥

-- The answer to a comparison of values of different kinds.
abbrev pub mismatch : CmpOp → Bool
mismatch ne = true
mismatch _ = false

module _ {rt : Runtime} where
  equal-mismatch : (v w : Value rt) → ¬ SameKind v w → equal v w ≡ ok false
  unfolding equal
  equal-mismatch Value.none w h = ground arith
  equal-mismatch (bool b) w h = ground arith
  equal-mismatch (int m) w h = ground arith
  equal-mismatch (float x) w h = ground arith
  equal-mismatch _ w h = ground arith

  ordered-mismatch :
      (test : rt.Float → rt.Float → Bool) (v w : Value rt)
      → ¬ SameKind v w
      → ordered test v w ≡ ok false
  unfolding ordered
  ordered-mismatch test Value.none w h = ground arith
  ordered-mismatch test (bool b) w h = ground arith
  ordered-mismatch test (int m) w h = ground arith
  ordered-mismatch test (float x) w h = ground arith
  ordered-mismatch test _ w h = ground arith

  -- Values of different kinds are never converted to one another and never raise: they are unequal,
  -- and no ordered comparison holds. A bool is not of the kind of the numbers.
  compare-mismatch :
      (op : CmpOp) (v w : Value rt) → ¬ SameKind v w → compare v op w ≡ ok (mismatch op)
  unfolding compare
  compare-mismatch eq v w h = equal-mismatch v w h
  compare-mismatch ne v w h = cc (equal-mismatch v w h)
  compare-mismatch gt v w h = ordered-mismatch _ v w h
  compare-mismatch lt v w h = ordered-mismatch _ v w h
  compare-mismatch ge v w h = ordered-mismatch _ v w h
  compare-mismatch le v w h = ordered-mismatch _ v w h
