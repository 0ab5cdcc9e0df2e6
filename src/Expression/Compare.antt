-- ===== src/Expression/Compare.antt =====
-- `_compare` of core/expression.py: comparison with no conversion between types.
pub mod Laws
pub mod Ints
use agentwire_cue.Prelude.{Bool, true, false, not, ◌&&◌, Option, none, some, ◌==◌, if◌then◌else◌}
use agentwire_cue.Prelude.Int.{pos, int_eq}
use agentwire_cue.Value.{Runtime, Value, bool, int, float, str, is_none, is_bool, is_number}
use agentwire_cue.Outcome.{Result, ok, err, conversion_error, ◌>>=◌}
use agentwire_cue.Expression.Ast.{CmpOp, eq, ne, gt, lt, ge, le}

module _ {rt : Runtime} where
  of_option {ℓ} : {A : Type ℓ} → Option A → Result rt A
  of_option none = err conversion_error
  of_option (some x) = ok x

  -- float(v), at an int or a float; a bool is an int
  to_float : Value rt → Result rt rt.Float
  unfolding of_option
  to_float (bool true) = of_option (rt.of_int (pos 1))
  to_float (bool false) = of_option (rt.of_int (pos 0))
  to_float (int n) = of_option (rt.of_int n)
  to_float (float x) = ok x
  to_float _ = err conversion_error

  -- type(v) is bool and type(w) is bool and v == w
  same_bool : Value rt → Value rt → Bool
  same_bool (bool true) (bool true) = true
  same_bool (bool false) (bool false) = true
  same_bool _ _ = false

  -- The tests of `==` after those for None and bool.
  eq_typed : Value rt → Value rt → Result rt Bool
  unfolding to_float
  eq_typed (str s) (str t) = ok (s == t)
  eq_typed (int m) (int n) = ok (int_eq m n)
  eq_typed v w =
      if is_number v && is_number w
      then (do x ← to_float v; y ← to_float w; ok (rt.float_eq x y))
      else ok false

  unfoldable pub equal : Value rt → Value rt → Result rt Bool
  unfolding same_bool eq_typed
  equal v w =
      if is_none v
      then ok (is_none w)
      else if is_none w
      then ok false
      else if is_bool v
      then ok (same_bool v w)
      else if is_bool w
      then ok false
      else eq_typed v w

  -- The four ordered comparisons: numbers that are no bool, through float.
  unfoldable pub ordered : (rt.Float → rt.Float → Bool) → Value rt → Value rt → Result rt Bool
  unfolding to_float
  ordered test v w =
      if is_bool v
      then ok false
      else if is_bool w
      then ok false
      else if not (is_number v)
      then ok false
      else if not (is_number w)
      then ok false
      else do x ← to_float v; y ← to_float w; ok (test x y)

  unfoldable pub compare : Value rt → CmpOp → Value rt → Result rt Bool
  unfolding equal ordered
  compare v eq w = equal v w
  compare v ne w = do b ← equal v w; ok (not b)
  compare v gt w = ordered (λ x y. rt.float_lt y x) v w
  compare v lt w = ordered rt.float_lt v w
  compare v ge w = ordered (λ x y. rt.float_le y x) v w
  compare v le w = ordered rt.float_le v w
