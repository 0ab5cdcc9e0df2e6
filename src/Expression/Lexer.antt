-- ===== src/Expression/Lexer.antt =====
-- `tokenize` of core/expression.py: the regular expression `_TOKEN_PATTERN` and the loop that
-- matches it at one position after the other.
pub mod Lossless
use Prim.Native.String.{◌++◌}
use agentwire_cue.Prelude.{
  ℕ, zero, suc, String, Char, code, Bool, true, false, not, Option, none, some, List, [], ◌∷◌, ◌||◌,
  ◌&&◌, ◌==◌, if◌then◌else◌, nat_eq,
}
use agentwire_cue.Value.{Runtime}
use agentwire_cue.Outcome.{expression, unrecognized_token}
use agentwire_cue.Expression.Lexicon.{Lexicon}
use agentwire_cue.Expression.Reply.{Reply, ok, failed, out_of_fuel, ◌>>=◌}
use agentwire_cue.Expression.Parser.{Tokens}

-- The longest run of characters with `p` at the front, and what follows it: `[p]*`.
unfoldable pub span : (Char → Bool) → String → String × String
span p String.[] = (String.[], String.[])
span p (String.◌∷◌ c s) =
    let (run, rest) = span p s in
    if p c then (String.◌∷◌ c run, rest) else (String.[], String.◌∷◌ c s)

abbrev pub is_char : ℕ → Char → Bool
is_char n c = nat_eq (code c) n

-- What one alternative of the pattern matches, with the rest of the text.
abbrev pub Match : Type 0
Match = Option (String × String)

-- `[p]+`
unfoldable pub span1 : (Char → Bool) → String → Match
unfolding span
span1 p String.[] = none
span1 p (String.◌∷◌ c s) =
    let (run, rest) = span p s in if p c then some (String.◌∷◌ c run, rest) else none

-- `(c[p]+)?` after a match: extends it if the text goes on so.
unfoldable pub then_run : ℕ → (Char → Bool) → String → String → Match
unfolding span1
then_run n p front String.[] = some (front, String.[])
then_run n p front (String.◌∷◌ c s) =
    let extended : Match = elim (span1 p s) [
      | none ↦ some (front, String.◌∷◌ c s)
      | some (run, rest) ↦ some (front ++ String.◌∷◌ c run, rest)
    ] in
    if is_char n c then extended else some (front, String.◌∷◌ c s)

-- `[^q]*q` after the opening quotation mark
unfoldable pub quoted : Char → String → Match
quoted q String.[] = none
quoted q (String.◌∷◌ c s) =
    let more : Match = elim (quoted q s) [
      | none ↦ none
      | some (run, rest) ↦ some (String.◌∷◌ c run, rest)
    ] in
    if is_char (code q) c then some (String.◌∷◌ c String.[], s) else more

-- A one-character token that a second character may extend: `==`, `!=`, `>=`, `<=`, `&&`, `||`.
unfoldable pub pair : Char → ℕ → Match → String → Match
pair c n alone String.[] = alone
pair c n alone (String.◌∷◌ d s) =
    if is_char n d then some (String.◌∷◌ c (String.◌∷◌ d String.[]), s) else alone

module _ {rt : Runtime} (lex : Lexicon rt) where
  -- `\d+\.\d+|\d+`
  unfoldable pub number : String → Match
  unfolding span1 then_run
  number s = elim (span1 lex.is_digit s) [
    | none ↦ none
    | some (run, rest) ↦ then_run b'.' lex.is_digit run rest
  ]

  -- `_TOKEN_PATTERN.match`, at a text that begins with `c`
  unfoldable pub match_token : Char → String → Match
  unfolding number quoted pair span1
  match_token c s =
      let alone : Match = some (String.◌∷◌ c String.[], s) in
      if is_char b'-' c
      then elim (number s) [ none ↦ none | some (run, rest) ↦ some (String.◌∷◌ c run, rest) ]
      else if lex.is_digit c
      then number (String.◌∷◌ c s)
      else if is_char 34 c || is_char 39 c
      then elim (quoted c s) [ none ↦ none | some (run, rest) ↦ some (String.◌∷◌ c run, rest) ]
      else if is_char b'=' c
      then pair c b'=' none s
      else if is_char b'&' c
      then pair c b'&' none s
      else if is_char b'|' c
      then pair c b'|' none s
      else if is_char b'!' c || is_char b'>' c || is_char b'<' c
      then pair c b'=' alone s
      else if is_char b'(' c || is_char b')' c || is_char b',' c || is_char b'.' c || is_char b'$' c
      then alone
      else span1 lex.is_word (String.◌∷◌ c s)

  -- The loop of `tokenize`. Each round takes at least one character, so the number of characters
  -- is fuel enough.
  unfoldable pub token_loop : ℕ → String → Reply rt Tokens
  unfolding match_token
  token_loop zero s = out_of_fuel
  token_loop (suc f) String.[] = ok []
  token_loop (suc f) (String.◌∷◌ c s) =
      let skipped = token_loop f s in
      let matched : Reply rt Tokens = elim (match_token c s) [
        | none ↦ failed (expression unrecognized_token)
        | some (tok, rest) ↦ token_loop f rest >>= λ ts. ok (tok ∷ ts)
      ] in
      if lex.is_space c then skipped else matched

abbrev pub count : String → ℕ
count String.[] = 0
count (String.◌∷◌ c s) = suc (count s)

unfoldable pub tokenize : {rt : Runtime} → Lexicon rt → String → Reply rt Tokens
unfolding token_loop
tokenize lex s = token_loop lex (suc (count s)) s
