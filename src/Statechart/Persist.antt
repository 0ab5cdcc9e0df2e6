-- ===== src/Statechart/Persist.antt =====
-- `persist` and `restore_from_persist` of core/statechart.py.
pub mod Words
pub mod Laws
use agentwire_cue.Prelude.{
  ℕ, ◌+◌, String, Char, code, Bool, true, false, not, Option, none, some, List, [], ◌∷◌, ◌&&◌, ◌||◌,
  ◌==◌, if◌then◌else◌, nat_eq, any, contains,
}
use agentwire_cue.Prelude.Int.{pos, int_eq}
use agentwire_cue.Value.{Runtime, Value, Fields, bool, int, float, str, list, dict, nil, end, field}
use agentwire_cue.Value.Dict
use agentwire_cue.Outcome as Exceptions
use agentwire_cue.Outcome.{Exn, Result, key_error, type_error, conversion_error, python_error}
use agentwire_cue.Expression.Lexicon.{Lexicon}
use agentwire_cue.Statechart.Action.{index, get_field}
use agentwire_cue.Statechart.Handlers.{int_of}
use agentwire_cue.Statechart.Model.{
  Outcome, Effect, Run, Chart, Engine, Host, exception, ok, err, saved,
}

-- s.startswith(p), p in s
unfoldable pub is_prefix : String → String → Bool
is_prefix String.[] s = true
is_prefix (String.◌∷◌ c p) String.[] = false
is_prefix (String.◌∷◌ c p) (String.◌∷◌ d s) = nat_eq (code c) (code d) && is_prefix p s

unfoldable pub has_infix : String → String → Bool
unfolding is_prefix
has_infix p String.[] = is_prefix p String.[]
has_infix p (String.◌∷◌ c s) = is_prefix p (String.◌∷◌ c s) || has_infix p s

-- _SENSITIVE_PATTERNS, without the stars on both sides of each
abbrev pub sensitive_words : List String
sensitive_words = "token" ∷ "secret" ∷ "password" ∷ "credential" ∷ []

-- fnmatch(k.lower(), "*word*") for one of the words
unfoldable pub is_sensitive : {rt : Runtime} → Lexicon rt → String → Bool
unfolding has_infix
is_sensitive lex k = any (λ word. has_infix word (lex.lower k)) sensitive_words

module _ {rt : Runtime} (host : Host rt) (chart : Chart rt) where
  -- The two `continue` of the loop over the context.
  unfoldable pub keeps_key : String → Bool
  keeps_key k = not (contains k chart.persist_exclude) && not (is_sensitive host.lex k)

  unfoldable pub payload : Engine rt → Value rt
  unfolding keeps_key Dict.filter_keys
  payload e = dict (
      field "schema_version" (int (pos 1)) (
        field "meta"
          (dict (field "name" (str chart.name) (field "version" (str chart.version) end)))
          (field "context" (dict (Dict.filter_keys keeps_key e.context)) (
            field "state_id" e.current_state (
              field "state_entered_at_ms" (int e.state_entered_at_ms)
                (field "updated_at_ms" (int (pos (host.time e.reads))) end))))))

  unfoldable pub write_payload : String → Engine rt → Outcome rt Unit × Engine rt
  unfolding payload
  write_payload path e =
      let read : Engine rt = record e { run = record e.run { reads = e.reads + 1 } } in
      let written : Engine rt = record e {
        run = record e.run { reads = e.reads + 1; effects = saved path (payload e) ∷ e.effects };
      } in
      elim (host.dumps (payload e)) [
        | none ↦ (err (exception type_error), read)
        | some text ↦ (ok tt, if host.can_write path then written else read)
      ]

  -- A failed write is logged and swallowed; a payload that json.dumps refuses is not.
  unfoldable pub persist : Engine rt → Outcome rt Unit × Engine rt
  unfolding write_payload
  persist e = elim chart.persist_path [ none ↦ (ok tt, e) | some path ↦ write_payload path e ]

  -- data.get("schema_version") != 1
  unfoldable pub is_version_one : Value rt → Bool
  is_version_one (int n) = int_eq n (pos 1)
  is_version_one (bool b) = b
  is_version_one (float x) = elim (rt.of_int (pos 1)) [ none ↦ false | some y ↦ rt.float_eq x y ]
  is_version_one v = false

  -- data.get("meta", {}).get("name") != self.plugin.name
  unfoldable pub has_name : Value rt → Bool
  has_name (str s) = s == chart.name
  has_name v = false

module _ {rt : Runtime} (host : Host rt) (chart : Chart rt) where
  -- dict(v)
  unfoldable pub dict_of : Value rt → Result rt (Fields rt)
  dict_of (dict d) = Result.ok d
  dict_of (list nil) = Result.ok end
  dict_of v = Result.err type_error

  -- What a file that is refused comes to: with `ignore_corrupt` the engine goes on as it is, and
  -- without it the exception leaves.
  abbrev pub refuse : Bool → Exn rt → Engine rt → Result rt Bool × Engine rt
  refuse ignore_corrupt x e = (if ignore_corrupt then Result.ok false else Result.err x, e)

  -- The assignments at the end of `restore_from_persist`; the clock is read for the default.
  unfoldable pub load_entered : Value rt → Engine rt → Result rt Bool × Engine rt
  unfolding get_field int_of
  load_entered stored e =
      let read : Engine rt = record e { run = record e.run { reads = e.reads + 1 } } in
      let entered =
        Exceptions.◌>>=◌ (get_field stored "state_entered_at_ms" (int (pos (host.time e.reads))))
          int_of in
      elim entered [
        | Result.ok n ↦ (Result.ok true, record read { state_entered_at_ms = n })
        | Result.err x ↦ (Result.err x, read)
      ]

  unfoldable pub load_state : Value rt → Engine rt → Result rt Bool × Engine rt
  unfolding index load_entered
  load_state stored e = elim (index stored "state_id") [
    | Result.ok state ↦ load_entered stored (record e { current_state = state })
    | Result.err x ↦ (Result.err x, e)
  ]

  unfoldable pub load_context : Value rt → Engine rt → Result rt Bool × Engine rt
  unfolding get_field dict_of load_state
  load_context stored e =
      let context = Exceptions.◌>>=◌ (get_field stored "context" (dict end)) dict_of in
      elim context [
        | Result.ok d ↦ load_state stored (record e { run = record e.run { context = d } })
        | Result.err x ↦ (Result.err x, e)
      ]

  -- data.get("meta", {}).get("name")
  unfoldable pub stored_name : Value rt → Result rt (Value rt)
  unfolding get_field
  stored_name stored =
      Exceptions.◌>>=◌ (get_field stored "meta" (dict end)) λ meta. get_field meta "name" Value.none

  unfoldable pub check_name : Bool → Value rt → Engine rt → Result rt Bool × Engine rt
  unfolding stored_name has_name load_context
  check_name ignore_corrupt stored e = elim (stored_name stored) [
    | Result.ok name ↦
        if has_name host chart name
        then load_context stored e
        else refuse ignore_corrupt conversion_error e
    | Result.err x ↦ (Result.err x, e)
  ]

  unfoldable pub check_version : Bool → Value rt → Engine rt → Result rt Bool × Engine rt
  unfolding get_field is_version_one check_name
  check_version ignore_corrupt stored e = elim (get_field stored "schema_version" Value.none) [
    | Result.ok version ↦
        if is_version_one host chart version
        then check_name ignore_corrupt stored e
        else refuse ignore_corrupt conversion_error e
    | Result.err x ↦ (Result.err x, e)
  ]

  -- `restore_from_persist`, given the content of state.json if it exists. The copy that
  -- `_backup_and_skip` makes of a refused file is outside the engine and left out.
  unfoldable pub restore_from_persist :
      Bool → Option String → Engine rt → Result rt Bool × Engine rt
  restore_from_persist ignore_corrupt none e = (Result.ok false, e)
  restore_from_persist ignore_corrupt (some content) e =
      let loaded : Result rt Bool × Engine rt = elim (host.loads content) [
        | none ↦ refuse ignore_corrupt conversion_error e
        | some stored ↦ check_version ignore_corrupt stored e
      ] in
      elim chart.persist_path [ none ↦ (Result.ok false, e) | some _ ↦ loaded ]
