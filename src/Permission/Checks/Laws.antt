-- ===== src/Permission/Checks/Laws.antt =====
-- What the checks let through, and what the filter keeps.
use Prim.Native.String.{◌++◌}
use mathlib.Core.Path.{subst}
use agentwire_cue.Prelude.{
  ◌⊎◌, inl, inr, ◌||◌, ◌==◌, eq_iff, if_elim, String, ◌≡◌, refl, ap, ◌∙◌, Bool, true, false, Option,
  none, some, List, [], ◌∷◌, contains, arith, if◌then◌else◌,
}
use agentwire_cue.Prelude.Assoc as Assoc
use agentwire_cue.Value.{Runtime, Values, Fields, list, dict, nil, cons, truthy}
use agentwire_cue.Value.Dict
use agentwire_cue.Outcome.{Result, ok, err, conversion_error, ok-injective, ◌>>=◌}
use agentwire_cue.Expression.Lexicon.{Lexicon}
use agentwire_cue.Statechart.Action.{get_field}
use agentwire_cue.Statechart.Model.{Chart, Host}
use agentwire_cue.Statechart.Persist.{keeps_key, is_sensitive, has_infix}
use agentwire_cue.Sandbox.Path.{FileSystem}
use agentwire_cue.Sandbox.Check.{is_passed, check_filesystem_path}
use agentwire_cue.Permission.Glob.{fnmatch}
use agentwire_cue.Permission.Glob.Laws.{Plain, fnmatch-infix}
use agentwire_cue.Permission.Enforcer.{
  Urls, Decision, Enforcer, http_egress, raw_socket, filesystem, subprocess, env, peers, deny,
  items_of, any_match,
}
use agentwire_cue.Permission.Checks.{
  section_of, decide, is_listed, find_peer, granted, rule_matches, apply_rules, check_filesystem,
  check_host, check_network_http, check_network_raw, check_subprocess, check_env, check_peer,
  sensitive_patterns, passes_filter, filter_sensitive,
}

module _ {rt : Runtime} (fs : FileSystem) (plugin path : String) (e : Enforcer rt) where
  -- The sandbox lets the path through, with the extra directories of the plugin and of the host.
  abbrev pub sandboxed : Bool
  sandboxed =
      let extras : List String = elim (Assoc.get plugin e.persist_spec_extras) [
        | none ↦ []
        | some ps ↦ ps
      ] in
      is_passed (check_filesystem_path fs path extras e.persist_cli_extras)

  granted-sandboxed :
      (d : Decision) → granted fs plugin path "write" e ≡ d → d.allowed ≡ true → sandboxed ≡ true
  unfolding granted
  granted-sandboxed d h k = ground (arith, h, k)

  apply_rules-sandboxed :
      (rules : Values rt) (d : Decision)
      → apply_rules fs plugin path "write" e rules ≡ ok d
      → d.allowed ≡ true
      → sandboxed ≡ true
  unfolding apply_rules
  apply_rules-sandboxed nil d h k = ground (arith, h, k)
  apply_rules-sandboxed (cons (dict entry) rules) d h k =
      go (rule_matches fs path "write" entry) (apply_rules-sandboxed rules d) h
    where
      go :
          (m : Result rt Bool)
          → (apply_rules fs plugin path "write" e rules ≡ ok d
              → d.allowed ≡ true
              → sandboxed ≡ true)
          → (m >>= λ b.
              if b
              then ok (granted fs plugin path "write" e)
              else apply_rules fs plugin path "write" e rules)
            ≡ ok d
          → sandboxed ≡ true
      go (err x) rest f = cc
      go (ok true) rest f = granted-sandboxed d (ok-injective f) k
      go (ok false) rest f = rest f k
  apply_rules-sandboxed (cons v rules) d h k = apply_rules-sandboxed rules d h k

  -- A write that check_filesystem allows has passed the sandbox, with the extra directories of its
  -- plugin and of the host: no rule of a plugin can grant a write outside the sandbox.
  pub check_filesystem-sandboxed :
      (d : Decision)
      → check_filesystem fs plugin path "write" e ≡ ok d
      → d.allowed ≡ true
      → sandboxed ≡ true
  unfolding check_filesystem
  check_filesystem-sandboxed d h k = go (items_of (section_of "filesystem" (list nil) plugin e)) h
    where
      go :
          (m : Result rt (Values rt))
          → (m >>= λ rules. apply_rules fs plugin path "write" e rules) ≡ ok d
          → sandboxed ≡ true
      go (err x) f = cc
      go (ok rules) f = apply_rules-sandboxed rules d f k

known_mode :
    {rt : Runtime} (fs : FileSystem) (plugin path : String) (e : Enforcer rt) (mode : String)
    (d : Decision)
    → check_filesystem fs plugin path mode e ≡ ok d
    → d.allowed ≡ true
    → (mode ≡ "read") ⊎ (mode ≡ "write")
unfolding check_filesystem
known_mode {rt = rt} fs plugin path e mode d =
    if_elim
      (λ (r : Result rt Decision). r ≡ ok d → d.allowed ≡ true → (mode ≡ "read") ⊎ (mode ≡ "write"))
      (mode == "read" || mode == "write")
      (λ h _ _. ground (arith, h, eq_iff mode "read", eq_iff mode "write")) (λ _ h k. absurd (cc))

-- A mode that check_filesystem allows is read, or it is write and the path has passed the sandbox.
pub check_filesystem-mode :
    {rt : Runtime} (fs : FileSystem) (plugin path : String) (e : Enforcer rt) (mode : String)
    (d : Decision)
    → check_filesystem fs plugin path mode e ≡ ok d
    → d.allowed ≡ true
    → (mode ≡ "read") ⊎ ((mode ≡ "write") × (sandboxed fs plugin path e ≡ true))
check_filesystem-mode fs plugin path e mode d h k = elim (known_mode fs plugin path e mode d h k) [
  | inl r ↦ inl r
  | inr w ↦ inr (
    w,
    check_filesystem-sandboxed fs plugin path e d
        (subst (λ m. check_filesystem fs plugin path m e ≡ ok d) w h) k,
  )
]

abbrev pub is_some : {A : Type 0} → Option A → Bool
is_some none = false
is_some (some a) = true

module _ {rt : Runtime} (e : Enforcer rt) (plugin : String)
    (unknown : Assoc.get plugin e.by_plugin ≡ none) where
  check_host-unregistered :
      (lex : Lexicon rt) (scheme hostname : String)
      → check_host lex plugin scheme hostname e ≡ ok (deny http_egress plugin)
  unfolding check_host section_of decide is_listed get_field items_of any_match Dict.get
  check_host-unregistered lex scheme hostname = ground (arith, unknown)

  check_network_http-unregistered :
      (lex : Lexicon rt) (urls : Urls) (url : String)
      → check_network_http lex urls plugin url e ≡ (
          if is_some (urls.urlparse url)
          then ok (deny http_egress plugin)
          else err conversion_error)
  unfolding check_network_http
  check_network_http-unregistered lex urls url = go (urls.urlparse url)
    where
      go :
          (o : Option (String × String))
          → elim o as (λ _. Result rt Decision) [
            | none ↦ err conversion_error
            | some (scheme, hostname) ↦ check_host lex plugin scheme hostname e
          ]
            ≡ (if is_some o then ok (deny http_egress plugin) else err conversion_error)
      go none = refl
      go (some (scheme, hostname)) = check_host-unregistered lex scheme hostname

  -- A plugin that is not registered is denied everything, by each of the six checks, but for a url
  -- that urlparse refuses with a ValueError, which leaves the check.
  pub checks-unregistered :
      (lex : Lexicon rt) (urls : Urls) (fs : FileSystem)
      (url command path mode name peer_id : String) (arguments : List String)
      (message_type : Option String)
      → (check_network_http lex urls plugin url e ≡ (
          if is_some (urls.urlparse url)
          then ok (deny http_egress plugin)
          else err conversion_error))
        × (check_network_raw plugin e ≡ ok (deny raw_socket plugin))
        × (check_filesystem fs plugin path mode e ≡ ok (deny filesystem plugin))
        × (check_subprocess plugin (command ∷ arguments) e ≡ ok (deny subprocess plugin))
        × (check_env plugin name e ≡ ok (deny env plugin))
        × (check_peer plugin peer_id message_type e ≡ ok (deny peers plugin))
  unfolding check_network_raw check_filesystem check_subprocess check_env check_peer section_of
      decide is_listed get_field items_of find_peer any_match apply_rules truthy Dict.get
  checks-unregistered lex urls fs url command path mode name peer_id arguments message_type =
      ground (arith, unknown, check_network_http-unregistered lex urls url)

-- str.lower leaves the four patterns as they are: they have no upper-case letter.
abbrev pub LowerKeeps : {rt : Runtime} → Lexicon rt → Type 0
LowerKeeps lex = (p : String) → contains p sensitive_patterns ≡ true → lex.lower p ≡ p

module _ {rt : Runtime} (host : Host rt) (chart : Chart rt) (keeps : LowerKeeps host.lex) where
  pattern-infix :
      (word k : String)
      → Plain word
      → contains ("*" ++ word ++ "*") sensitive_patterns ≡ true
      → fnmatch k (host.lex.lower ("*" ++ word ++ "*")) ≡ has_infix word k
  pattern-infix word k plain listed =
      ap (fnmatch k) (keeps ("*" ++ word ++ "*") listed) ∙ fnmatch-infix word k plain

  passes_filter-keeps_key :
      (k : String) → passes_filter host.lex chart.persist_exclude k ≡ keeps_key host chart k
  unfolding passes_filter keeps_key is_sensitive
  passes_filter-keeps_key k =
      let s = host.lex.lower k in
      ground (
        arith,
        pattern-infix "token" s refl refl,
        pattern-infix "secret" s refl refl,
        pattern-infix "password" s refl refl,
        pattern-infix "credential" s refl refl,
      )

  -- The filter of the permission enforcer, given the keys that a plugin excludes, keeps exactly the
  -- entries that `persist` writes.
  pub filter_sensitive-persist :
      (d : Fields rt)
      → filter_sensitive host.lex chart.persist_exclude d
        ≡ Dict.filter_keys (keeps_key host chart) d
  unfolding filter_sensitive
  filter_sensitive-persist d =
      ap (λ keep. Dict.filter_keys keep d) (λ i. λ k. passes_filter-keeps_key k i)
