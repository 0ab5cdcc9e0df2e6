-- ===== src/Expression/Lexicon.antt =====
-- What the lexer and the parser ask of characters.
use agentwire_cue.Prelude.{String, Char, Bool, false, ◌||◌, ◌&&◌, leb, code, nat_eq}
use agentwire_cue.Value.{Runtime}

-- Python's classes of characters for the host that `rt` stands for, which are not in the repository.
pub record Lexicon (rt : Runtime) : Type 0 where
  -- str.isspace
  pub is_space : Char → Bool
  -- \w
  pub is_word : Char → Bool
  -- \d
  pub is_digit : Char → Bool
  -- str.isdigit of one character
  pub is_digit_char : Char → Bool
  -- str.lower
  pub lower : String → String

-- re.match(r"^[A-Za-z_]", tok)
unfoldable pub starts_name : String → Bool
starts_name String.[] = false
starts_name (String.◌∷◌ c s) =
    leb b'A' (code c) && leb (code c) b'Z'
    || leb b'a' (code c) && leb (code c) b'z'
    || nat_eq (code c) b'_'

-- re.match(r"(?u)^\w", tok)
unfoldable pub starts_word : {rt : Runtime} → Lexicon rt → String → Bool
starts_word lex String.[] = false
starts_word lex (String.◌∷◌ c s) = lex.is_word c
