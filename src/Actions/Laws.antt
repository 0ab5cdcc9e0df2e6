-- ===== src/Actions/Laws.antt =====
-- What the actions do is permitted.
use mathlib.Core.Path.{subst}
use agentwire_cue.Prelude.{
  String, ◌≡◌, refl, sym, ap, ◌∙◌, true, ◌⊎◌, inl, inr, Option, none, some, [], ◌∷◌, option_elim,
}
use agentwire_cue.Prelude.Assoc as Assoc
use agentwire_cue.Prelude.Assoc.{Assoc}
use agentwire_cue.Value.{Runtime, Value, Values, Fields, str, end, field}
use agentwire_cue.Outcome.{Result}
use agentwire_cue.Statechart.Model.{Outcome, Run, EvalEnv, Chart, Host, ok, err}
use agentwire_cue.Statechart.Action.{Action, pure, lift, index, get_field, ◌>>=◌}
use agentwire_cue.Permission.Enforcer.{Enforcer}
use agentwire_cue.Permission.Checks.{
  check_filesystem, check_subprocess, check_env, check_network_http, check_network_raw,
}
use agentwire_cue.Permission.Checks.Laws.{sandboxed, check_filesystem-mode}
use agentwire_cue.Statechart.Transition.{update}
use agentwire_cue.Actions.{
  Deed, System, Installed, World, wrote, spawned, requested, env_fields, get_safe_env,
  require_enforcer, require, text, render_if, require_plugin, mode_of, write_content, write_checked,
  write_arguments, plan_write, require_env, secrets_of, spawn_given, given_env, spawn_checked,
  spawn_arguments, plan_spawn, given_options, request_raw, request_http, request_arguments,
  plan_request, do_deed, perform, write_file, spawn_subprocess, http_request,
}
use agentwire_cue.Actions.Ensures.{
  IsNamed, HoldsOf, Ensures, Ensures-bind, Ensures-next, Ensures-map, Allows, AllNames,
  AllNames-map, update-AllNames, lift-Ensures, require-Ensures, require_enforcer-Ensures,
}

module _ {rt : Runtime} where
  module _ (system : System rt) (host : Host rt) (chart : Chart rt) (env : EvalEnv rt) where
    -- Each variable of an action is allowed.
    abbrev AllAllowed : Enforcer rt → Fields rt → Type 0
    AllAllowed e vars = AllNames (λ name. Allows (check_env chart.name name e)) vars

    require_env-Ensures :
        (e : Enforcer rt) (vars : Fields rt)
        → Ensures (λ (_ : Unit {0}). AllAllowed e vars) (require_env system host chart env e vars)
    unfolding require_env pure
    require_env-Ensures e end = λ r. tt
    require_env-Ensures e (field name v vars) =
        Ensures-bind (λ (_ : Unit {0}). AllAllowed e (field name v vars))
          (require (check_env chart.name name e)) (λ _. require_env system host chart env e vars)
          (require-Ensures (check_env chart.name name e))
          (λ _ h.
            Ensures-map (require_env system host chart env e vars) (λ _ k. (h, k))
              (require_env-Ensures e vars))

    module _ (i : Installed rt) where
      -- A variable of the environment that every process gets: the search path, the language, or a
      -- secret of the plugin.
      abbrev pub IsGiven : String → Type 0
      IsGiven name =
          (name ≡ "PATH")
          ⊎ ((name ≡ "LANG")
              ⊎ ((secrets : Assoc String) × (Assoc.get chart.name i.secrets ≡ some secrets)
                  × IsNamed name secrets))

      -- The enforcer allows a deed of an action, for the plugin that the engine runs.
      abbrev pub Permitted : Value rt → Enforcer rt → Deed rt → Type 0
      Permitted action e (wrote target content) =
          (params : Value rt) × (path mode : String) × (index action "with" ≡ Result.ok params)
          × (get_field params "mode" (str "write") ≡ Result.ok (str mode))
          × (target ≡ system.fs.expanduser path)
          × Allows (check_filesystem system.fs chart.name path mode e)
          × ((mode ≡ "read") ⊎ ((mode ≡ "write") × (sandboxed system.fs chart.name path e ≡ true)))
      Permitted action e (spawned command arguments vars) =
          Allows (check_subprocess chart.name (command ∷ []) e)
          × AllNames (λ name. IsGiven name ⊎ Allows (check_env chart.name name e)) vars
      Permitted action e (requested method url options) =
          Allows (check_network_http host.lex system.urls chart.name url e)
          × Allows (check_network_raw chart.name e)

      abbrev pub IsPermitted : Value rt → Deed rt → Type 0
      IsPermitted action d = (e : Enforcer rt) × (i.enforcer ≡ some e) × Permitted action e d

      -- The parameters and the mode are those of the action.
      abbrev AreOf : Value rt → Value rt × String × String → Type 0
      AreOf action a =
          (m : Value rt) × (index action "with" ≡ Result.ok a.0)
          × (get_field a.0 "mode" (str "write") ≡ Result.ok m)
          × (a.2 ≡ mode_of system host chart env m)

      write_arguments-AreOf :
          (action : Value rt)
          → Ensures (AreOf action) (write_arguments system host chart env i action)
      unfolding write_arguments pure
      write_arguments-AreOf action =
          Ensures-next (AreOf action) (require_plugin system host chart env i) _ λ _.
            Ensures-bind (AreOf action) (lift (index action "with")) _
              (lift-Ensures (index action "with"))
              λ params from. Ensures-next (AreOf action) (lift (index params "path")) _ λ template.
                Ensures-next (AreOf action) (render_if system host chart env template) _ λ rendered.
                  Ensures-next (AreOf action) (text rendered) _ λ path.
                    Ensures-bind (AreOf action) (lift (get_field params "mode" (str "write"))) _
                      (lift-Ensures (get_field params "mode" (str "write")))
                      λ m is r. (m, from, is, refl)

      -- A mode that is allowed is a text.
      mode_of-text :
          (m : Value rt) (path : String) (e : Enforcer rt)
          → Allows (check_filesystem system.fs chart.name path (mode_of system host chart env m) e)
          → m ≡ str (mode_of system host chart env m)
      unfolding mode_of check_filesystem
      mode_of-text (str mode) path e h = refl
      mode_of-text _ path e (d, h, k) = absurd (cc)

      write_checked-Ensures :
          (action : Value rt) (e : Enforcer rt) (h : i.enforcer ≡ some e)
          (a : Value rt × String × String)
          → AreOf action a
          → Ensures (IsPermitted action) (write_checked system host chart env e a.0 a.1 a.2)
      unfolding write_checked pure
      write_checked-Ensures action e h (params, path, mode) (m, from, is, same) =
          let check = check_filesystem system.fs chart.name path mode e in
          Ensures-bind (IsPermitted action) (require check)
            (λ _. write_content system host chart env params path >>= λ content.
              pure (wrote (system.fs.expanduser path) content))
            (require-Ensures check)
            λ _ (d, c, a).
              let of_mode = mode_of-text m path e (
                subst (λ n. Allows (check_filesystem system.fs chart.name path n e)) same
                  (d, c, a)) in
              let given = is ∙ ap Result.ok (of_mode ∙ ap str (sym same)) in
              Ensures-next (IsPermitted action) (write_content system host chart env params path)
                (λ content. pure (wrote (system.fs.expanduser path) content))
                λ content r. (
                  e,
                  h,
                  (
                    params,
                    path,
                    mode,
                    from,
                    given,
                    refl,
                    (d, c, a),
                    check_filesystem-mode system.fs chart.name path e mode d c a,
                  ),
                )

      plan_write-Ensures :
          (action : Value rt)
          → Ensures (IsPermitted action) (plan_write system host chart env i action)
      unfolding plan_write
      plan_write-Ensures action =
          Ensures-bind (IsPermitted action) (require_enforcer i)
            (λ e. write_arguments system host chart env i action >>= λ a.
              write_checked system host chart env e a.0 a.1 a.2)
            (require_enforcer-Ensures i)
            λ e h.
              Ensures-bind (IsPermitted action) (write_arguments system host chart env i action)
                (λ a. write_checked system host chart env e a.0 a.1 a.2)
                (write_arguments-AreOf action) λ a of. write_checked-Ensures action e h a of

      env_fields-AllNames :
          (secrets : Assoc String)
          → AllNames {rt = rt} (λ name. IsNamed name secrets) (env_fields secrets)
      unfolding env_fields
      env_fields-AllNames [] = tt
      env_fields-AllNames ((name, value) ∷ secrets) =
          (inl refl, AllNames-map (env_fields secrets) (λ n h. inr h) (env_fields-AllNames secrets))

      secrets-IsGiven : AllNames {rt = rt} IsGiven (env_fields (secrets_of system host chart env i))
      unfolding env_fields
      secrets-IsGiven = go (Assoc.get chart.name i.secrets) refl
        where
          go :
              (o : Option (Assoc String))
              → Assoc.get chart.name i.secrets ≡ o
              → AllNames {rt = rt} IsGiven (
                  env_fields (elim o as (λ _. Assoc String) [ none ↦ [] | some secrets ↦ secrets ]))
          go none h = tt
          go (some secrets) h =
              AllNames-map (env_fields secrets) (λ name k. inr (inr (secrets, h, k)))
                (env_fields-AllNames secrets)

      spawned_names :
          (e : Enforcer rt) (given : Fields rt)
          → AllAllowed e given
          → AllNames
              (λ name. IsGiven name ⊎ Allows (check_env chart.name name e))
              (update (get_safe_env system.getenv (secrets_of system host chart env i)) given)
      unfolding get_safe_env
      spawned_names e given h =
          update-AllNames (λ name. IsGiven name ⊎ Allows (check_env chart.name name e))
            (get_safe_env system.getenv (secrets_of system host chart env i)) given
            (AllNames-map (get_safe_env system.getenv (secrets_of system host chart env i))
              (λ name k. inl k)
              (update-AllNames IsGiven _ (env_fields (secrets_of system host chart env i))
                (inl refl, (inr (inl refl), tt)) secrets-IsGiven))
            (AllNames-map given (λ name k. inr k) h)

      spawn_checked-Ensures :
          (action : Value rt) (e : Enforcer rt) (h : i.enforcer ≡ some e) (params : Value rt)
          (command : String) (arguments : Values rt)
          → Ensures
              (IsPermitted action)
              (spawn_checked system host chart env i e params command arguments)
      unfolding spawn_checked spawn_given pure
      spawn_checked-Ensures action e h params command arguments =
          let check = check_subprocess chart.name (command ∷ []) e in
          Ensures-bind (IsPermitted action) (require check)
            (λ _.
              given_env system host chart env params
              >>= spawn_given system host chart env i e command arguments)
            (require-Ensures check)
            λ _ allowed.
              Ensures-next (IsPermitted action) (given_env system host chart env params)
                (spawn_given system host chart env i e command arguments)
                λ given.
                  Ensures-bind (IsPermitted action) (require_env system host chart env e given)
                    (λ _. pure (
                      spawned command arguments (
                        update (get_safe_env system.getenv (secrets_of system host chart env i))
                          given)))
                    (require_env-Ensures e given)
                    λ _ vars r. (e, h, (allowed, spawned_names e given vars))

      plan_spawn-Ensures :
          (action : Value rt)
          → Ensures (IsPermitted action) (plan_spawn system host chart env i action)
      unfolding plan_spawn
      plan_spawn-Ensures action =
          Ensures-bind (IsPermitted action) (require_enforcer i)
            (λ e. spawn_arguments system host chart env action >>= λ a.
              spawn_checked system host chart env i e a.0 a.1 a.2)
            (require_enforcer-Ensures i)
            λ e h.
              Ensures-next (IsPermitted action) (spawn_arguments system host chart env action)
                (λ a. spawn_checked system host chart env i e a.0 a.1 a.2)
                λ a. spawn_checked-Ensures action e h a.0 a.1 a.2

      request_http-Ensures :
          (action : Value rt) (e : Enforcer rt) (h : i.enforcer ≡ some e) (params : Value rt)
          (method url : String)
          → Ensures (IsPermitted action) (request_http system host chart env e params method url)
      unfolding request_http request_raw pure
      request_http-Ensures action e h params method url =
          let http = check_network_http host.lex system.urls chart.name url e in
          let raw = check_network_raw chart.name e in
          Ensures-bind (IsPermitted action) (require http)
            (λ _. request_raw system host chart env e params method url) (require-Ensures http)
            λ _ allowed.
              Ensures-bind (IsPermitted action) (require raw)
                (λ _. given_options system host chart env params >>= λ options.
                  pure (requested (system.upper method) url options))
                (require-Ensures raw)
                λ _ also.
                  Ensures-next (IsPermitted action) (given_options system host chart env params)
                    (λ options. pure (requested (system.upper method) url options))
                    λ options r. (e, h, (allowed, also))

      plan_request-Ensures :
          (action : Value rt)
          → Ensures (IsPermitted action) (plan_request system host chart env i action)
      unfolding plan_request
      plan_request-Ensures action =
          Ensures-bind (IsPermitted action) (require_enforcer i)
            (λ e. request_arguments system host chart env action >>= λ a.
              request_http system host chart env e a.0 a.1 a.2)
            (require_enforcer-Ensures i)
            λ e h.
              Ensures-next (IsPermitted action) (request_arguments system host chart env action)
                (λ a. request_http system host chart env e a.0 a.1 a.2)
                λ a. request_http-Ensures action e h a.0 a.1 a.2

      -- What an action adds to the deeds: nothing, or one permitted deed.
      abbrev pub Adds : Value rt → World rt → World rt → Type 0
      Adds action w w' =
          (w'.deeds ≡ w.deeds) ⊎ ((d : Deed rt) × (w'.deeds ≡ d ∷ w.deeds) × IsPermitted action d)

      perform-Adds :
          (action : Value rt) (plan : Action rt (Deed rt)) (w : World rt)
          → Ensures (IsPermitted action) plan
          → Adds action w (perform system host chart env plan w).1
      unfolding perform do_deed
      perform-Adds action plan w h = go (plan w.run) (h w.run)
        where
          go :
              (o : Outcome rt (Deed rt) × Run rt)
              → HoldsOf (IsPermitted action) o.0
              → Adds action w (do_deed system host chart env o.0 o.1 w).1
          go (err x, r) p = inl refl
          go (ok d, r) p =
              option_elim (λ (v : Outcome rt (Unit {0}) × World rt). Adds action w v.1)
                (system.begins d) (inr (d, refl, p)) (λ x _. inl refl)

      -- Each of the three actions does nothing to the outside, or one deed that the installed
      -- enforcer permits. A file is written only at a path that check_filesystem allows for the mode
      -- that the action names, which is write if it names none, and that mode is read, or it is
      -- write and the path passed the sandbox. A process is started only with an allowed command,
      -- and each variable of its environment is PATH, LANG, a secret of the plugin, or allowed. A
      -- request is sent only if both network checks allow it.
      pub actions-IsPermitted :
          (action : Value rt) (w : World rt)
          → Adds action w (write_file system host chart env i action w).1
            × Adds action w (spawn_subprocess system host chart env i action w).1
            × Adds action w (http_request system host chart env i action w).1
      unfolding write_file spawn_subprocess http_request
      actions-IsPermitted action w = (
        perform-Adds action (plan_write system host chart env i action) w
            (plan_write-Ensures action),
        perform-Adds action (plan_spawn system host chart env i action) w
            (plan_spawn-Ensures action),
        perform-Adds action (plan_request system host chart env i action) w
            (plan_request-Ensures action),
      )
