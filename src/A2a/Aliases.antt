-- ===== src/A2a/Aliases.antt =====
-- The tokens of the peer aliases, which the client of core/a2a_client.py and that of
-- core/history_client.py read in the same way.
use agentwire_cue.Prelude.{String, Char, Bool, Option, none, some, ◌==◌, if◌then◌else◌}
use agentwire_cue.Value.{Runtime, Value, Fields, str, truthy}
use agentwire_cue.Value.Dict
use agentwire_cue.Outcome.{Result, ok, ◌>>=◌}
use agentwire_cue.Expression.Template.{lstrip, rstrip}

-- What the resolution of a token asks of the system.
pub record Secrets (rt : Runtime) : Type 0 where
  -- open(v).read(): the text, `none` for an OSError, or another exception
  pub read_file : Value rt → Result rt (Option String)
  -- os.environ.get(v)
  pub getenv : Value rt → Result rt (Option String)
  -- str.isspace, which str.strip() goes by
  pub is_space : Char → Bool

module _ {rt : Runtime} (secrets : Secrets rt) where
  -- The text, if there is one that is not empty.
  unfoldable pub filled : Option String → Option (Value rt)
  filled none = none
  filled (some s) = if s == "" then none else some (str s)

  unfoldable pub stripped : Option String → Option String
  unfolding lstrip rstrip
  stripped none = none
  stripped (some s) = some (rstrip secrets.is_space (lstrip secrets.is_space s))

  unfoldable pub file_token : Fields rt → Result rt (Option (Value rt))
  unfolding filled stripped truthy
  file_token alias =
      let token_file = Dict.get_or "token_file" Value.none alias in
      if truthy token_file
      then (secrets.read_file token_file >>= λ text. ok (filled (stripped text)))
      else ok none

  unfoldable pub env_token : Fields rt → Result rt (Option (Value rt))
  unfolding filled truthy
  env_token alias =
      let token_env = Dict.get_or "token_env" Value.none alias in
      if truthy token_env then (secrets.getenv token_env >>= λ text. ok (filled text)) else ok none

  unfoldable pub literal_token : Fields rt → Option (Value rt)
  unfolding truthy
  literal_token alias =
      let token = Dict.get_or "token" Value.none alias in if truthy token then some token else none

  -- The token of an alias: its file's, else its variable's, else its literal, else the default.
  unfoldable pub alias_token : Value rt → Fields rt → Result rt (Value rt)
  unfolding file_token env_token literal_token
  alias_token default alias =
      let literal : Value rt = elim (literal_token alias) [ none ↦ default | some t ↦ t ] in
      file_token alias >>= λ from_file. elim from_file [
        | some t ↦ ok t
        | none ↦ env_token alias >>= λ from_env. elim from_env [ some t ↦ ok t | none ↦ ok literal ]
      ]
