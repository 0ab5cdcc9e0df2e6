-- ===== src/Permission/Enforcer.antt =====
-- `PermissionEnforcer` of core/permission.py, but for its timers: registration, the checks, the
-- filter of sensitive keys.
use agentwire_cue.Prelude.{
  ℕ, String, Bool, true, false, Option, none, some, List, [], ◌∷◌, if◌then◌else◌,
}
use agentwire_cue.Prelude.Assoc as Assoc
use agentwire_cue.Prelude.Assoc.{Assoc}
use agentwire_cue.Prelude.Int.{ℤ, pos}
use agentwire_cue.Value.{
  Runtime, Value, Values, Fields, bool, int, str, list, dict, nil, cons, end, field, truthy,
}
use agentwire_cue.Value.Dict
use agentwire_cue.Outcome.{Exn, Result, ok, err, type_error, ◌>>=◌}
use agentwire_cue.Statechart.Action.{get_field}
use agentwire_cue.Statechart.Handlers.{int_of}
use agentwire_cue.Statechart.Transition.{update}
use agentwire_cue.Permission.Glob.{fnmatch}

-- What the checks ask of urllib.parse.
pub record Urls : Type 0 where
  -- urlparse(url): the scheme, and the hostname or "", both in lower case; `none` is the ValueError
  -- of a malformed url.
  pub urlparse : String → Option (String × String)

-- The categories of a PermissionDecision.
pub data Category : Type 0 where
  http_egress raw_socket filesystem subprocess env peers : Category

-- PermissionDecision, without its text.
pub record Decision : Type 0 where
  pub allowed : Bool
  pub category : Category
  pub plugin : String

-- The fields of a PermissionEnforcer.
pub record Enforcer (rt : Runtime) : Type 0 where
  pub by_plugin : Assoc (Fields rt)
  pub active_timers : Assoc ℕ
  pub timer_max : Assoc ℤ
  pub persist_spec_extras : Assoc (List String)
  pub persist_cli_extras : List String

-- What `register` comes to: it returns, it raises its own PermissionError_, or Python raises half way.
pub data Registered (rt : Runtime) : Type 0 where
  registered already_registered : Registered rt
  raised : Exn rt → Registered rt

abbrev pub allow : Category → String → Decision
allow category plugin = record { allowed = true; category = category; plugin = plugin }

abbrev pub deny : Category → String → Decision
deny category plugin = record { allowed = false; category = category; plugin = plugin }

module _ {rt : Runtime} where
  unfoldable pub characters : String → Values rt
  characters String.[] = nil
  characters (String.◌∷◌ c s) = cons (str (String.◌∷◌ c String.[])) (characters s)

  unfoldable pub keys : Fields rt → Values rt
  keys end = nil
  keys (field k v d) = cons (str k) (keys d)

  -- What `for x in v or []` goes through.
  unfoldable pub items_of : Value rt → Result rt (Values rt)
  unfolding characters keys truthy
  items_of (list vs) = ok vs
  items_of (str s) = ok (characters s)
  items_of (dict d) = ok (keys d)
  items_of v = if truthy v then err type_error else ok nil

  -- any(fnmatch.fnmatch(s, p) for p in vs): a pattern that is no text raises, unless one matched before
  unfoldable pub any_match : (String → String) → String → Values rt → Result rt Bool
  unfolding fnmatch
  any_match case s nil = ok false
  any_match case s (cons (str p) vs) =
      let rest = any_match case s vs in if fnmatch s (case p) then ok true else rest
  any_match case s (cons v vs) = err type_error

  unfoldable pub default_network : Fields rt
  default_network = field "http_egress" (list nil) (field "raw_socket" (bool false) end)

  unfoldable pub default_timers : Fields rt
  default_timers = field "max_concurrent" (int (pos 1)) (field "min_interval_ms" (int (pos 0)) end)

  -- permissions[k] in place of the default, if it is there
  unfoldable pub replace : String → Value rt → Fields rt → Value rt
  replace k default permissions = Dict.get_or k default permissions

  -- The default dict, updated by permissions[k] if that is a dict.
  unfoldable pub merge : String → Fields rt → Fields rt → Fields rt
  unfolding update
  merge k default permissions = elim (Dict.get k permissions) [
    | some (dict d) ↦ update default d
    | _ ↦ default
  ]

  -- permissions, if it is a dict
  abbrev pub given : Value rt → Fields rt
  given (dict d) = d
  given v = end

  unfoldable pub effective : Fields rt → Fields rt
  unfolding replace merge default_network default_timers
  effective permissions = field "network" (dict (merge "network" default_network permissions)) (
      field "filesystem" (replace "filesystem" (list nil) permissions) (
        field "subprocess" (replace "subprocess" (dict (field "allow" (list nil) end)) permissions)
          (field "env" (replace "env" (list nil) permissions) (
            field "peers" (replace "peers" (list nil) permissions)
              (field "timers" (dict (merge "timers" default_timers permissions)) end)))))

  -- The texts of a list of extra parents; os.path works on str(p).
  unfoldable pub texts : (Value rt → String) → Values rt → List String
  texts show nil = []
  texts show (cons (str s) vs) = s ∷ texts show vs
  texts show (cons v vs) = show v ∷ texts show vs

  -- list(permissions.get("persist", {}).get("allowed_parents_extras", []) or [])
  unfoldable pub extras_of : (Value rt → String) → Fields rt → Result rt (List String)
  unfolding get_field items_of texts
  extras_of show permissions = do
    extras ←
        get_field (Dict.get_or "persist" (dict end) permissions) "allowed_parents_extras" (list nil)
    vs ← items_of extras
    ok (texts show vs)

  -- The last two assignments of `register`.
  unfoldable pub register_extras :
      (Value rt → String) → String → Fields rt → Enforcer rt → Registered rt × Enforcer rt
  unfolding extras_of
  register_extras show plugin permissions e = elim (extras_of show permissions) [
    | err x ↦ (raised x, e)
    | ok extras ↦ (
      registered,
      record e { persist_spec_extras = Assoc.set plugin extras e.persist_spec_extras },
    )
  ]

  unfoldable pub register_max :
      (Value rt → String) → String → Fields rt → Enforcer rt → Registered rt × Enforcer rt
  unfolding register_extras int_of merge default_timers
  register_max show plugin permissions e =
      let max =
        Dict.get_or "max_concurrent" (int (pos 1)) (merge "timers" default_timers permissions) in
      elim (int_of max) [
        | err x ↦ (raised x, e)
        | ok n ↦
            register_extras show plugin permissions
              (record e { timer_max = Assoc.set plugin n e.timer_max })
      ]

  unfoldable pub register :
      (Value rt → String) → String → Value rt → Enforcer rt → Registered rt × Enforcer rt
  unfolding register_max effective
  register show plugin permissions e =
      let perms = given permissions in
      let entered : Enforcer rt = record e {
        by_plugin = Assoc.set plugin (effective perms) e.by_plugin;
        active_timers = Assoc.set plugin 0 e.active_timers;
      } in
      elim (Assoc.get plugin e.by_plugin) [
        | some _ ↦ (already_registered, e)
        | none ↦ register_max show plugin perms entered
      ]

  unfoldable pub unregister : String → Enforcer rt → Enforcer rt
  unregister plugin e = record e {
    by_plugin = Assoc.remove plugin e.by_plugin;
    active_timers = Assoc.remove plugin e.active_timers;
    timer_max = Assoc.remove plugin e.timer_max;
    persist_spec_extras = Assoc.remove plugin e.persist_spec_extras;
  }

  -- self.get(plugin)
  abbrev pub permissions_of : String → Enforcer rt → Fields rt
  permissions_of plugin e = elim (Assoc.get plugin e.by_plugin) [ none ↦ end | some d ↦ d ]
