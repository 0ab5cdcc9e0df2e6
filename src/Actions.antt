-- ===== src/Actions.antt =====
-- core/actions.py: the three actions on the outside. Each first plans a deed, which can fail at every
-- check, and then does it.
pub mod Ensures
pub mod Laws
use agentwire_cue.Prelude.{
  String, Bool, true, false, Option, none, some, List, [], ◌∷◌, ◌==◌, not, ◌&&◌, if◌then◌else◌,
}
use agentwire_cue.Prelude.Assoc as Assoc
use agentwire_cue.Prelude.Assoc.{Assoc}
use agentwire_cue.Value.{
  Runtime, Value, Values, Fields, str, list, dict, nil, cons, end, field, truthy,
}
use agentwire_cue.Value.Dict
use agentwire_cue.Outcome.{Result, Exn, type_error, python_error}
use agentwire_cue.Expression.Lexicon.{Lexicon}
use agentwire_cue.Statechart.Model.{
  Raise, Outcome, Run, EvalEnv, Chart, Host, action_error, exception, ok, err,
}
use agentwire_cue.Statechart.Action.{
  Action, pure, raise, lift, index, get_field, render, ◌>>=◌, ◌>>◌,
}
use agentwire_cue.Statechart.Persist.{has_infix}
use agentwire_cue.Statechart.Transition.{update}
use agentwire_cue.Sandbox.Path.{FileSystem}
use agentwire_cue.Permission.Enforcer.{Urls, Decision, Enforcer}
use agentwire_cue.Permission.Checks.{
  check_filesystem, check_subprocess, check_env, check_network_http, check_network_raw,
}

-- What an action does to the outside: the file that it writes; the command that it starts, with its
-- arguments and environment; the request that it sends, with its options.
pub data Deed (rt : Runtime) : Type 0 where
  wrote : String → String → Deed rt
  spawned : String → Values rt → Fields rt → Deed rt
  requested : String → String → Fields rt → Deed rt

-- What the module uses and does not implement.
pub record System (rt : Runtime) : Type 0 where
  pub fs : FileSystem
  pub urls : Urls
  -- str(v), and str.upper
  pub show : Value rt → String
  pub upper : String → String
  -- os.environ.get(name)
  pub getenv : String → Option String
  -- the target exists and is a symbolic link
  pub is_symlink : String → Bool
  -- what keeps a deed from being begun: an OSError, FileNotFoundError, or another exception
  pub begins : Deed rt → Option (Raise rt)
  -- what comes after it was begun: a timeout, or another exception
  pub ends : Deed rt → Option (Raise rt)

-- The two globals of the module: the enforcer, and the secrets of each registered plugin.
pub record Installed (rt : Runtime) : Type 0 where
  pub enforcer : Option (Enforcer rt)
  pub secrets : Assoc (Assoc String)

-- The deeds so far, the newest first, and what the actions of the engine share.
pub record World (rt : Runtime) : Type 0 where
  pub run : Run rt
  pub deeds : List (Deed rt)

module _ {rt : Runtime} where
  abbrev pub not_installed : Installed rt
  not_installed = record { enforcer = none; secrets = [] }

  -- `install`
  unfoldable pub install : Enforcer rt → Assoc (Assoc String) → Installed rt → Installed rt
  install enforcer secrets i = record { enforcer = some enforcer; secrets = secrets }

  -- `get_safe_env` of core/loader.py
  unfoldable pub env_fields : Assoc String → Fields rt
  env_fields [] = end
  env_fields ((name, value) ∷ secrets) = field name (str value) (env_fields secrets)

  unfoldable pub get_safe_env : (String → Option String) → Assoc String → Fields rt
  unfolding env_fields update
  get_safe_env getenv secrets =
      let path : String = elim (getenv "PATH") [ none ↦ "/usr/bin:/bin" | some s ↦ s ] in
      let lang : String = elim (getenv "LANG") [ none ↦ "C.UTF-8" | some s ↦ s ] in
      update (field "PATH" (str path) (field "LANG" (str lang) end)) (env_fields secrets)

  -- `_require_enforcer`
  unfoldable pub require_enforcer : Installed rt → Action rt (Enforcer rt)
  unfolding pure raise
  require_enforcer i = elim i.enforcer [ none ↦ raise action_error | some e ↦ pure e ]

  -- `if not decision: raise ActionError(...)`
  unfoldable pub require : Result rt Decision → Action rt (Unit {0})
  unfolding pure raise
  require (Result.err e) = raise (exception e)
  require (Result.ok d) = if d.allowed then pure tt else raise action_error

  -- A value where the program needs a text.
  unfoldable pub text : Value rt → Action rt String
  unfolding pure raise
  text (str s) = pure s
  text v = raise (exception type_error)

  module _ (system : System rt) (host : Host rt) (chart : Chart rt) (env : EvalEnv rt) where
    -- A value rendered as a template, if its text has braces.
    unfoldable pub render_if : Value rt → Action rt (Value rt)
    unfolding has_infix render pure
    render_if v =
        if has_infix "{{" (system.show v)
        then (render host chart env (str (system.show v)) >>= λ s. pure (str s))
        else pure v

    -- The plugin is registered with the installer.
    unfoldable pub require_plugin : Installed rt → Action rt (Unit {0})
    unfolding pure raise
    require_plugin i = elim (Assoc.get chart.name i.secrets) [
      | none ↦ raise action_error
      | some secrets ↦ pure tt
    ]

    -- A mode that is no text is no mode that the enforcer knows.
    unfoldable pub mode_of : Value rt → String
    mode_of (str mode) = mode
    mode_of v = ""

    unfoldable pub refuse_symlink : String → Action rt (Unit {0})
    unfolding pure raise
    refuse_symlink path = if system.is_symlink path then raise action_error else pure tt

    -- `_action_write_file` up to the writing, from its end: the content, behind the permission check.
    unfoldable pub write_content : Value rt → String → Action rt String
    unfolding lift index render_if refuse_symlink pure
    write_content params path = do
      content ← lift (index params "content")
      written ← render_if content
      refuse_symlink (system.fs.expanduser path)
      pure (system.show written)

    unfoldable pub write_checked : Enforcer rt → Value rt → String → String → Action rt (Deed rt)
    unfolding require check_filesystem write_content pure
    write_checked e params path mode =
        require (check_filesystem system.fs chart.name path mode e) >>= λ _.
        write_content params path >>= λ content. pure (wrote (system.fs.expanduser path) content)

    -- The parameters of the action, its rendered path, and its mode.
    unfoldable pub write_arguments :
        Installed rt → Value rt → Action rt (Value rt × String × String)
    unfolding require_plugin lift index get_field render_if text mode_of pure
    write_arguments i action = do
      require_plugin i
      params ← lift (index action "with")
      template ← lift (index params "path")
      rendered ← render_if template
      path ← text rendered
      mode ← lift (get_field params "mode" (str "write"))
      pure (params, path, mode_of mode)

    unfoldable pub plan_write : Installed rt → Value rt → Action rt (Deed rt)
    unfolding require_enforcer write_arguments write_checked
    plan_write i action =
        require_enforcer i >>= λ e. write_arguments i action >>= λ a. write_checked e a.0 a.1 a.2

    -- `if not isinstance(cmd, list) or not cmd`, and the command of the list
    unfoldable pub command_of : Value rt → Action rt (Value rt × Values rt)
    unfolding pure raise
    command_of (list (cons command arguments)) = pure (command, arguments)
    command_of v = raise action_error

    -- `v or {}`, which has to be a dict
    unfoldable pub dict_of : Value rt → Action rt (Fields rt)
    unfolding truthy pure raise
    dict_of (dict d) = pure d
    dict_of v = if truthy v then raise action_error else pure end

    -- The loop over the variables of the action.
    unfoldable pub require_env : Enforcer rt → Fields rt → Action rt (Unit {0})
    unfolding require check_env pure
    require_env enforcer end = pure tt
    require_env enforcer (field name v vars) =
        require (check_env chart.name name enforcer) >> require_env enforcer vars

    abbrev pub secrets_of : Installed rt → Assoc String
    secrets_of i = elim (Assoc.get chart.name i.secrets) [ none ↦ [] | some secrets ↦ secrets ]

    -- `_action_spawn_subprocess` up to the start of the process, from its end.
    unfoldable pub spawn_given :
        Installed rt → Enforcer rt → String → Values rt → Fields rt → Action rt (Deed rt)
    unfolding require_env get_safe_env update pure
    spawn_given i e command arguments given = require_env e given >>= λ _.
        pure (spawned command arguments (update (get_safe_env system.getenv (secrets_of i)) given))

    unfoldable pub given_env : Value rt → Action rt (Fields rt)
    unfolding lift get_field dict_of
    given_env params = lift (get_field params "env" (dict end)) >>= dict_of

    unfoldable pub spawn_checked :
        Installed rt → Enforcer rt → Value rt → String → Values rt → Action rt (Deed rt)
    unfolding require check_subprocess given_env spawn_given
    spawn_checked i e params command arguments =
        require (check_subprocess chart.name (command ∷ []) e) >>= λ _.
        given_env params >>= spawn_given i e command arguments

    -- The parameters of the action, its command, and the arguments of the command.
    unfoldable pub spawn_arguments : Value rt → Action rt (Value rt × String × Values rt)
    unfolding lift index command_of text pure
    spawn_arguments action = do
      params ← lift (index action "with")
      cmd ← lift (index params "cmd")
      parts ← command_of cmd
      command ← text parts.0
      pure (params, command, parts.1)

    unfoldable pub plan_spawn : Installed rt → Value rt → Action rt (Deed rt)
    unfolding require_enforcer spawn_arguments spawn_checked
    plan_spawn i action =
        require_enforcer i >>= λ e. spawn_arguments action >>= λ a. spawn_checked i e a.0 a.1 a.2

    -- The loop over the options: a text with braces is rendered.
    unfoldable pub render_options : Fields rt → Action rt (Fields rt)
    unfolding has_infix render pure
    render_options end = pure end
    render_options (field k (str s) options) =
        (if has_infix "{{" s then render host chart env (str s) else pure s) >>= λ t.
        render_options options >>= λ rest. pure (field k (str t) rest)
    render_options (field k v options) = render_options options >>= λ rest. pure (field k v rest)

    -- `v or {}` of the options, and their items
    unfoldable pub options_of : Value rt → Action rt (Fields rt)
    unfolding truthy pure raise
    options_of (dict d) = pure d
    options_of v = if truthy v then raise (exception python_error) else pure end

    -- `_action_http_request` up to the request, from its end.
    unfoldable pub given_options : Value rt → Action rt (Fields rt)
    unfolding lift get_field options_of render_options
    given_options params = do
      raw ← lift (get_field params "options" (dict end))
      options ← options_of raw
      render_options options

    unfoldable pub request_raw : Enforcer rt → Value rt → String → String → Action rt (Deed rt)
    unfolding require check_network_raw given_options pure
    request_raw e params method url = require (check_network_raw chart.name e) >>= λ _.
        given_options params >>= λ options. pure (requested (system.upper method) url options)

    unfoldable pub request_http : Enforcer rt → Value rt → String → String → Action rt (Deed rt)
    unfolding require check_network_http request_raw
    request_http e params method url =
        require (check_network_http host.lex system.urls chart.name url e) >>= λ _.
        request_raw e params method url

    -- The parameters of the action, its method, and its url.
    unfoldable pub request_arguments : Value rt → Action rt (Value rt × String × String)
    unfolding lift index get_field text pure
    request_arguments action = do
      params ← lift (index action "with")
      target ← lift (index params "url")
      method_value ← lift (get_field params "method" (str "GET"))
      method ← text method_value
      url ← text target
      pure (params, method, url)

    unfoldable pub plan_request : Installed rt → Value rt → Action rt (Deed rt)
    unfolding require_enforcer request_arguments request_http
    plan_request i action =
        require_enforcer i >>= λ e. request_arguments action >>= λ a. request_http e a.0 a.1 a.2

    -- The deed is done, unless it cannot be begun.
    unfoldable pub do_deed :
        Outcome rt (Deed rt) → Run rt → World rt → Outcome rt (Unit {0}) × World rt
    do_deed (err x) r w = (err x, record w { run = r })
    do_deed (ok d) r w = elim (system.begins d) [
      | some x ↦ (err x, record w { run = r })
      | none ↦ (
        elim (system.ends d) [ some x ↦ err x | none ↦ ok tt ],
        record { run = r; deeds = d ∷ w.deeds },
      )
    ]

    unfoldable pub perform : Action rt (Deed rt) → World rt → Outcome rt (Unit {0}) × World rt
    unfolding do_deed
    perform plan w = let (outcome, r) = plan w.run in do_deed outcome r w

    unfoldable pub write_file :
        Installed rt → Value rt → World rt → Outcome rt (Unit {0}) × World rt
    unfolding plan_write perform
    write_file i action w = perform (plan_write i action) w

    unfoldable pub spawn_subprocess :
        Installed rt → Value rt → World rt → Outcome rt (Unit {0}) × World rt
    unfolding plan_spawn perform
    spawn_subprocess i action w = perform (plan_spawn i action) w

    unfoldable pub http_request :
        Installed rt → Value rt → World rt → Outcome rt (Unit {0}) × World rt
    unfolding plan_request perform
    http_request i action w = perform (plan_request i action) w
