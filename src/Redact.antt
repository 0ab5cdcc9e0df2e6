-- ===== src/Redact.antt =====
-- core/redact.py. Regular expressions, the gateway and the file of the cache are given from outside;
-- times are counted in seconds.
use agentwire_cue.Prelude.{
  String, ℕ, ◌+◌, Bool, Option, none, some, List, [], ◌∷◌, ltb, if◌then◌else◌, ◌++◌, ◌==◌,
}
use agentwire_cue.Value.{Runtime, Value, Values, str, list, dict, nil, cons, end, field}
use agentwire_cue.Value.Dict
use agentwire_cue.Outcome.{Result, ok, err, type_error, python_error, ◌>>=◌}
use agentwire_cue.Statechart.Action.{get_field}

-- What reading the file of the cache comes to: its JSON; an OSError or a JSONDecodeError; or another
-- exception.
pub data Reading (rt : Runtime) : Type 0 where
  parsed : Value rt → Reading rt
  unreadable raises : Reading rt

-- The file of the cache.
pub record CacheFile (rt : Runtime) : Type 0 where
  pub mtime : ℕ
  pub content : Reading rt

-- What `_fetch_remote` comes to: its JSON; a URLError or an HTTPError; or another exception.
pub data Remote (rt : Runtime) : Type 0 where
  fetched : Value rt → Remote rt
  url_error broken : Remote rt

-- CACHE_TTL_SECONDS
abbrev pub cache_ttl_seconds : ℕ
cache_ttl_seconds = 86400

module _ {rt : Runtime} where
  -- BUILTIN_FALLBACK: name, regex and replacement of an entry
  unfoldable pub pattern_entry : String → String → String → Value rt
  pattern_entry name regex replacement = dict (
      field "name" (str name)
        (field "regex" (str regex) (field "replacement" (str replacement) end)))

  unfoldable pub builtin_fallback : Value rt
  unfolding pattern_entry
  builtin_fallback = dict (
      field "version" (str "1") (
        field "patterns"
          (list (
            cons
              (pattern_entry "bearer_token" "(?i)Bearer\\s+[a-zA-Z0-9._\\-]{20,}"
                "Bearer [REDACTED:TOKEN]")
              (cons
                (pattern_entry "anthropic_key" "sk-ant-[a-zA-Z0-9\\-_]{20,}"
                  "[REDACTED:ANTHROPIC_KEY]")
                nil)))
          end))

  -- Exceptions that are not caught.
  unfoldable pub read_or : Value rt → Reading rt → Result rt (Value rt)
  read_or fallback (parsed v) = ok v
  read_or fallback unreadable = ok fallback
  read_or fallback raises = err python_error

  -- `_load_cache`; a file with `null` reads as no file.
  unfoldable pub load_cache : ℕ → Option (CacheFile rt) → Result rt (Value rt)
  unfolding read_or
  load_cache now none = ok Value.none
  load_cache now (some file) =
      let content = read_or Value.none file.content in
      if ltb (file.mtime + cache_ttl_seconds) now then ok Value.none else content

  -- What stands in for the catalog of an unreachable gateway: a stale cache, or the built-in one.
  unfoldable pub stale_or_builtin : Option (CacheFile rt) → Result rt (Value rt)
  unfolding read_or
  stale_or_builtin none = ok builtin_fallback
  stale_or_builtin (some file) = read_or builtin_fallback file.content

  -- The catalog of `__init__`, and the file of the cache after it. `save` is `_save_cache`, which
  -- raises nothing that the operating system reports.
  module _ (save : Value rt → Option (CacheFile rt) → Option (CacheFile rt)) where
    unfoldable pub refresh :
        Remote rt → Option (CacheFile rt) → Result rt (Value rt) × Option (CacheFile rt)
    unfolding stale_or_builtin
    refresh (fetched v) cache = (ok v, save v cache)
    refresh url_error cache = (stale_or_builtin cache, cache)
    refresh broken cache = (err python_error, cache)

    unfoldable pub use_cached :
        Remote rt
        → Option (CacheFile rt)
        → Result rt (Value rt)
        → Result rt (Value rt) × Option (CacheFile rt)
    unfolding refresh
    use_cached remote cache (err e) = (err e, cache)
    use_cached remote cache (ok Value.none) = refresh remote cache
    use_cached remote cache (ok v) = (ok v, cache)

    unfoldable pub catalog_of :
        Bool → ℕ → Remote rt → Option (CacheFile rt) → Result rt (Value rt) × Option (CacheFile rt)
    unfolding use_cached load_cache
    catalog_of force_refresh now remote cache =
        let loaded = load_cache now cache in
        if force_refresh then refresh remote cache else use_cached remote cache loaded

  -- The items of a value that a loop goes over, if it is a list; a text or a dict has none, or has
  -- texts, and these have no item "name".
  unfoldable pub items_of : Value rt → Result rt (Values rt)
  items_of (list vs) = ok vs
  items_of (dict end) = ok nil
  items_of (str s) = if s == "" then ok nil else err type_error
  items_of v = err type_error

  -- re.compile, where none is re.error, and pattern.sub for the replacement and the text.
  module _ {P : Type 0} (compile : String → Option P)
      (sub : P → Value rt → String → Result rt String) where
    -- re.compile(v): what is no text is a TypeError.
    unfoldable pub compiled : Value rt → Result rt (Option P)
    compiled (str regex) = ok (compile regex)
    compiled v = err type_error

    -- The `append` of one entry: a key that is missing and re.error are passed over.
    unfoldable pub pattern_of : Value rt → Result rt (List (P × Value rt))
    unfolding compiled
    pattern_of (dict p) = elim (Dict.get "name" p) [
      | none ↦ ok []
      | some name ↦ elim (Dict.get "regex" p) [
        | none ↦ ok []
        | some regex ↦ compiled regex >>= λ c. ok (elim c [
          | none ↦ []
          | some pattern ↦ elim (Dict.get "replacement" p) [
            | none ↦ []
            | some replacement ↦ (pattern, replacement) ∷ []
          ]
        ])
      ]
    ]
    pattern_of v = err type_error

    unfoldable pub patterns_in : Values rt → Result rt (List (P × Value rt))
    unfolding pattern_of
    patterns_in nil = ok []
    patterns_in (cons v vs) = do first ← pattern_of v; rest ← patterns_in vs; ok (first ++ rest)

    -- The loop over catalog.get("patterns", []).
    unfoldable pub patterns_of : Value rt → Result rt (List (P × Value rt))
    unfolding patterns_in items_of get_field
    patterns_of catalog = do
      patterns ← get_field catalog "patterns" (list nil)
      items ← items_of patterns
      patterns_in items

    -- `redact`
    unfoldable pub redact : List (P × Value rt) → String → Result rt String
    redact [] text = ok text
    redact ((pattern, repl) ∷ patterns) text = sub pattern repl text >>= redact patterns

  -- `catalog_version`
  unfoldable pub catalog_version : Value rt → Result rt (Value rt)
  unfolding get_field
  catalog_version catalog = get_field catalog "version" (str "?")
