-- ===== src/Value.antt =====
-- Python values, as core/expression.py and core/statechart.py handle them.
pub mod Dict
use agentwire_cue.Prelude.{String, Bool, true, false, not, Option, ◌==◌}
use agentwire_cue.Prelude.Int.{ℤ, pos, int_eq}

-- The part of Python that the program calls and that is not in the repository: floats, and
-- objects with attributes. `none` stands for the exception that Python raises.
pub record Runtime : Type 1 where
  pub Float : Type 0
  -- objects other than numbers, texts, lists and dicts: proxies, clients, bound methods
  pub Obj : Type 0
  -- float(n); OverflowError for an integer that is too large
  pub of_int : ℤ → Option Float
  pub float_eq : Float → Float → Bool
  pub float_lt : Float → Float → Bool
  pub float_le : Float → Float → Bool
  pub float_is_zero : Float → Bool
  -- int(x); ValueError or OverflowError at nan and the infinities
  pub trunc : Float → Option ℤ
  -- x - n for an integer n
  pub float_sub_int : Float → ℤ → Option Float
  -- n - x for an integer n
  pub int_sub_float : ℤ → Float → Option Float
  -- float(s); ValueError for a text that is no number
  pub parse_float : String → Option Float
  -- int(s); ValueError for a text that is no integer
  pub parse_int : String → Option ℤ
  pub is_integer : Float → Bool
  -- bool(o)
  pub obj_truthy : Obj → Bool

-- `Values` are the items of a list, `Fields` the entries of a dict in insertion order.
mutual
  pub data Value (rt : Runtime) : Type 0 where
    none : Value rt
    bool : Bool → Value rt
    int : ℤ → Value rt
    float : rt.Float → Value rt
    str : String → Value rt
    list : Values rt → Value rt
    dict : Fields rt → Value rt
    obj : rt.Obj → Value rt

  pub data Values (rt : Runtime) : Type 0 where
    nil : Values rt
    cons : Value rt → Values rt → Values rt

  pub data Fields (rt : Runtime) : Type 0 where
    end : Fields rt
    field : String → Value rt → Fields rt → Fields rt

-- bool(v)
unfoldable pub truthy : {rt : Runtime} → Value rt → Bool
truthy none = false
truthy (bool b) = b
truthy (int n) = not (int_eq n (pos 0))
truthy {rt} (float x) = not (rt.float_is_zero x)
truthy (str s) = not (s == "")
truthy (list nil) = false
truthy (list (cons _ _)) = true
truthy (dict end) = false
truthy (dict (field _ _ _)) = true
truthy {rt} (obj o) = rt.obj_truthy o

abbrev pub is_none : {rt : Runtime} → Value rt → Bool
is_none none = true
is_none _ = false

abbrev pub is_bool : {rt : Runtime} → Value rt → Bool
is_bool (bool _) = true
is_bool _ = false

-- isinstance(v, (int, float)); a bool is an int
abbrev pub is_number : {rt : Runtime} → Value rt → Bool
is_number (bool _) = true
is_number (int _) = true
is_number (float _) = true
is_number _ = false
