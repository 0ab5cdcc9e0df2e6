-- ===== src/Expression/Template.antt =====
-- `render_template` of core/expression.py: every `{{path}}` of a text is replaced by the value of
-- its path. The scan of `_TEMPLATE_PATTERN.sub` is a walk over the text, in which `skip` counts the
-- characters of the last match that are still to be passed over.
pub mod Laws
use Prim.Native.String.{◌++◌}
use agentwire_cue.Prelude.{
  ℕ, zero, suc, ◌+◌, String, Bool, true, false, not, Option, none, some, List, [], ◌∷◌, ◌&&◌, ◌==◌,
  Char, if◌then◌else◌,
}
use agentwire_cue.Value.{Runtime, Value, Fields, bool}
use agentwire_cue.Outcome.{Result, ok, ◌>>=◌}
use agentwire_cue.Expression.Eval.{Objects, resolve_path}
use agentwire_cue.Expression.Lexer.{span, is_char, count}
use agentwire_cue.Expression.Lexicon.{Lexicon}

-- Puts a character in front of the first part of a text that was split.
unfoldable pub prepend : Char → List String → List String
prepend c [] = String.◌∷◌ c String.[] ∷ []
prepend c (part ∷ parts) = String.◌∷◌ c part ∷ parts

-- s.split(".")
unfoldable pub split_dots : String → List String
unfolding prepend
split_dots String.[] = String.[] ∷ []
split_dots (String.◌∷◌ c s) =
    let rest = split_dots s in if is_char b'.' c then String.[] ∷ rest else prepend c rest

-- s.lstrip() and s.rstrip(), for a class of characters
unfoldable pub lstrip : (Char → Bool) → String → String
lstrip p String.[] = String.[]
lstrip p (String.◌∷◌ c s) = let rest = lstrip p s in if p c then rest else String.◌∷◌ c s

unfoldable pub rstrip : (Char → Bool) → String → String
rstrip p String.[] = String.[]
rstrip p (String.◌∷◌ c s) =
    let rest = rstrip p s in if p c && rest == "" then String.[] else String.◌∷◌ c rest

-- The last character, as a text.
unfoldable pub last_char : String → String
last_char String.[] = String.[]
last_char (String.◌∷◌ c String.[]) = String.◌∷◌ c String.[]
last_char (String.◌∷◌ c (String.◌∷◌ d s)) = last_char (String.◌∷◌ d s)

-- A text that begins with `}}`.
unfoldable pub closes : String → Bool
closes (String.◌∷◌ c (String.◌∷◌ d s)) = is_char b'}' c && is_char b'}' d
closes _ = false

module _ {rt : Runtime} (lex : Lexicon rt) where
  -- Group 1 of `\s*([^}]+?)\s*`, at what stands between the braces and is not empty. Of whitespace
  -- alone the group is the last character, since it holds one at least.
  unfoldable pub group_of : String → String
  unfolding lstrip rstrip last_char
  group_of body =
      let stripped = rstrip lex.is_space (lstrip lex.is_space body) in
      if stripped == "" then last_char body else stripped

  -- `_TEMPLATE_PATTERN.match` behind a first `{`: the group, and the length of what is behind it.
  unfoldable pub match_braces : String → Option (String × ℕ)
  unfolding span closes group_of
  match_braces (String.◌∷◌ c (String.◌∷◌ d s)) =
      let (body, rest) = span (λ e. not (is_char b'}' e)) (String.◌∷◌ d s) in
      if is_char b'{' c && closes rest && not (body == "")
      then some (group_of body, count body + 3)
      else none
  match_braces _ = none

  module _ (py : Objects rt) (env : Fields rt) where
    -- What stands for a value in the text.
    unfoldable pub text_of : Value rt → String
    text_of Value.none = ""
    text_of (bool true) = "true"
    text_of (bool false) = "false"
    text_of v = py.show v

    -- `replacer`
    unfoldable pub fill : String → Result rt String
    unfolding split_dots resolve_path text_of
    fill group = resolve_path py env (split_dots group) >>= λ v. ok (text_of v)

    unfoldable pub render_loop : ℕ → String → Result rt String
    unfolding match_braces fill
    render_loop skip String.[] = ok ""
    render_loop (suc skip) (String.◌∷◌ c s) = render_loop skip s
    render_loop zero (String.◌∷◌ c s) =
        let copied = render_loop zero s >>= λ t. ok (String.◌∷◌ c t) in
        let matched : Result rt String = elim (match_braces s) [
          | none ↦ copied
          | some (group, length) ↦ (fill group >>= λ v. render_loop length s >>= λ t. ok (v ++ t))
        ] in
        if is_char b'{' c then matched else copied

    unfoldable pub render_template : String → Result rt String
    unfolding render_loop
    render_template = render_loop zero
