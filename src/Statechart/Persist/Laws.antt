-- ===== src/Statechart/Persist/Laws.antt =====
-- What state.json holds, and what comes back from it.
use agentwire_cue.Prelude.{
  ◌+◌, String, ◌≡◌, refl, Bool, true, false, not, Option, none, some, ◌&&◌, arith, eq_refl, ◌∙◌,
  contains, if◌then◌else◌, List, [], ◌∷◌, sym, ◌⊎◌, inl, inr,
}
use agentwire_cue.Value.{Runtime, Value, Fields, dict}
use agentwire_cue.Value.Dict
use agentwire_cue.Value.Dict.{get-filter_keys}
use agentwire_cue.Outcome.{Result}
use agentwire_cue.Statechart.Action.{index}
use agentwire_cue.Statechart.Model.{Chart, Engine, Host}
use agentwire_cue.Statechart.Persist.Words.{AnyStandsIn, any-AnyStandsIn, AnyStandsIn-any}
use agentwire_cue.Statechart.Persist.{
  is_sensitive, keeps_key, payload, check_version, restore_from_persist,
}

-- json.loads gives back what json.dumps has written.
pub record JsonRoundTrip {rt : Runtime} (host : Host rt) : Type 0 where
  pub loads-dumps :
      (v : Value rt) (text : String) → host.dumps v ≡ some text → host.loads text ≡ some v

true_not_false : true ≡ false → ⊥
true_not_false h = cc

module _ {rt : Runtime} (host : Host rt) (chart : Chart rt) where
  get-kept :
      (k : String) (context : Fields rt)
      → Dict.get k (Dict.filter_keys (keeps_key host chart) context) ≡ (
          if contains k chart.persist_exclude
          then none
          else if is_sensitive host.lex k
          then none
          else Dict.get k context)
  unfolding keeps_key
  get-kept k context =
      let b = contains k chart.persist_exclude in
      let filtered = get-filter_keys (keeps_key host chart) k context in
      split b (is_sensitive host.lex k) _ _ filtered
    where
      split :
          (excluded sensitive : Bool) (x y : Option (Value rt))
          → x ≡ (if not excluded && not sensitive then y else none)
          → x ≡ (if excluded then none else if sensitive then none else y)
      split true sensitive x y h = h
      split false true x y h = h
      split false false x y h = h

  -- One of the four sensitive words stands in the key, in lower case.
  abbrev pub IsSecret : String → Type 0
  IsSecret k = AnyStandsIn ("token" ∷ "secret" ∷ "password" ∷ "credential" ∷ []) (host.lex.lower k)

  -- What is written of a key: nothing, if it is excluded or secret, and its value otherwise.
  abbrev pub IsWritten : Fields rt → String → Option (Value rt) → Type 0
  IsWritten context k v =
      ((v ≡ none) × ((contains k chart.persist_exclude ≡ true) ⊎ IsSecret k))
      ⊎ ((v ≡ Dict.get k context) × (contains k chart.persist_exclude ≡ false) × ¬ IsSecret k)

  get-IsWritten :
      (k : String) (context : Fields rt)
      → IsWritten context k (Dict.get k (Dict.filter_keys (keeps_key host chart) context))
  unfolding is_sensitive
  get-IsWritten k context =
      go (contains k chart.persist_exclude) (is_sensitive host.lex k) refl refl (get-kept k context)
    where
      words : List String
      words = "token" ∷ "secret" ∷ "password" ∷ "credential" ∷ []

      x : Option (Value rt)
      x = Dict.get k (Dict.filter_keys (keeps_key host chart) context)

      go :
          (excluded sensitive : Bool)
          → contains k chart.persist_exclude ≡ excluded
          → is_sensitive host.lex k ≡ sensitive
          → x ≡ (if excluded then none else if sensitive then none else Dict.get k context)
          → IsWritten context k x
      go true sensitive e s h = inl (h, inl e)
      go false true e s h = inl (h, inr (any-AnyStandsIn words (host.lex.lower k) s))
      go false false e s h = inr (
        h,
        e,
        λ secret. true_not_false (sym (AnyStandsIn-any words (host.lex.lower k) secret) ∙ s),
      )

  -- The context that is written has no key that stands in the list of excluded keys or that
  -- contains token, secret, password or credential in lower case, and every other entry of the
  -- engine's context unchanged.
  pub payload_context :
      (e : Engine rt)
      → (stored : Fields rt) × (index (payload host chart e) "context" ≡ Result.ok (dict stored))
        × ((k : String) → IsWritten e.context k (Dict.get k stored))
  unfolding payload index Dict.get
  payload_context e =
      (Dict.filter_keys (keeps_key host chart) e.context, refl, λ k. get-IsWritten k e.context)

  -- `e₀` with what state.json holds of `e`.
  abbrev pub restored : Engine rt → Engine rt → Engine rt
  restored e e₀ = record e₀ {
    current_state = e.current_state;
    state_entered_at_ms = e.state_entered_at_ms;
    run = record e₀.run {
      context = Dict.filter_keys (keeps_key host chart) e.context;
      reads = e₀.reads + 1;
    };
  }

  restore_loaded :
      (path text : String) (stored : Value rt) (ignore_corrupt : Bool) (e₀ : Engine rt)
      → chart.persist_path ≡ some path
      → host.loads text ≡ some stored
      → restore_from_persist host chart ignore_corrupt (some text) e₀
        ≡ check_version host chart ignore_corrupt stored e₀
  unfolding restore_from_persist
  restore_loaded path text stored ignore_corrupt e₀ has_path loaded = ground arith

  check_version-payload :
      (e e₀ : Engine rt) (ignore_corrupt : Bool)
      → check_version host chart ignore_corrupt (payload host chart e) e₀
        ≡ (Result.ok true, restored e e₀)
  unfolding check_version payload Dict.get
  check_version-payload e e₀ ignore_corrupt = rw (eq_refl chart.name) refl

  -- After `persist` wrote state.json, `restore_from_persist` brings the engine that reads the file to
  -- the state, the time of entry and the context that were written, whatever it was before.
  pub restore-persist :
      JsonRoundTrip host
      → (e e₀ : Engine rt) (path text : String) (ignore_corrupt : Bool)
      → chart.persist_path ≡ some path
      → host.dumps (payload host chart e) ≡ some text
      → restore_from_persist host chart ignore_corrupt (some text) e₀
        ≡ (Result.ok true, restored e e₀)
  restore-persist json e e₀ path text ignore_corrupt has_path dumped =
      restore_loaded path text (payload host chart e) ignore_corrupt e₀ has_path
        (json.loads-dumps (payload host chart e) text dumped)
      ∙ check_version-payload e e₀ ignore_corrupt
