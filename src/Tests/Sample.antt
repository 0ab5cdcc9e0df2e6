-- ===== src/Tests/Sample.antt =====
-- A small Python: its floats are integers, and its objects have no attributes.
use agentwire_cue.Prelude.{
  ℕ, ◌+◌, ◌*◌, ◌-◌, String, Char, code, Bool, true, false, ◌&&◌, ◌||◌, none, some, leb, nat_eq,
}
use agentwire_cue.Prelude.Int.{ℤ, pos, ◌-ℤ◌, int_eq, int_ltb, int_leb}
use agentwire_cue.Value.{Runtime, Value}
use agentwire_cue.Outcome.{Result, type_error}
use agentwire_cue.Expression.Eval.{Objects}
use agentwire_cue.Expression.Lexicon.{Lexicon}

-- A text of digits as a number.
abbrev pub decimal : ℕ → String → ℕ
decimal n String.[] = n
decimal n (String.◌∷◌ c s) = decimal (n * 10 + (code c - b'0')) s

abbrev pub small : Runtime
small = record {
  Float = ℤ;
  Obj = String;
  of_int = some;
  float_eq = int_eq;
  float_lt = int_ltb;
  float_le = int_leb;
  float_is_zero = λ x. int_eq x (pos 0);
  trunc = some;
  float_sub_int = λ x n. some (x -ℤ n);
  int_sub_float = λ n x. some (n -ℤ x);
  parse_float = λ s. none;
  parse_int = λ s. some (pos (decimal 0 s));
  is_integer = λ x. true;
  obj_truthy = λ o. true;
}

abbrev pub no_objects : {rt : Runtime} → Objects rt
no_objects = record {
  attr = λ v name. Value.none;
  callable = λ v. false;
  call = λ v vs. Result.err type_error;
  show = λ v. "?";
}

abbrev between : ℕ → ℕ → Char → Bool
between a b c = leb a (code c) && leb (code c) b

abbrev pub ascii : Lexicon small
ascii = record {
  is_space = λ c. nat_eq (code c) b' ';
  is_word = λ c. between b'a' b'z' c || between b'0' b'9' c || nat_eq (code c) b'_';
  is_digit = between b'0' b'9';
  is_digit_char = between b'0' b'9';
  lower = λ s. s;
}
