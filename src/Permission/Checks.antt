-- ===== src/Permission/Checks.antt =====
-- The checks of `PermissionEnforcer` and its filter, core/permission.py.
pub mod Laws
use agentwire_cue.Prelude.{
  String, Bool, true, false, not, ◌&&◌, ◌||◌, Option, none, some, List, [], ◌∷◌, contains, any,
  ◌==◌, if◌then◌else◌,
}
use agentwire_cue.Prelude.Assoc as Assoc
use agentwire_cue.Value.{
  Runtime, Value, Values, Fields, bool, str, list, dict, nil, cons, end, field, truthy,
}
use agentwire_cue.Value.Dict
use agentwire_cue.Outcome.{Result, ok, err, type_error, conversion_error, ◌>>=◌}
use agentwire_cue.Expression.Lexicon.{Lexicon}
use agentwire_cue.Statechart.Action.{get_field}
use agentwire_cue.Statechart.Persist.{has_infix}
use agentwire_cue.Sandbox.Path.{FileSystem, split_slashes}
use agentwire_cue.Sandbox.Check.{is_passed, check_filesystem_path}
use agentwire_cue.Sandbox.Surface.{last_part}
use agentwire_cue.Permission.Glob.{fnmatch}
use agentwire_cue.Permission.Enforcer.{
  Urls, Decision, Enforcer, http_egress, raw_socket, filesystem, subprocess, env, peers, allow,
  deny, items_of, any_match, permissions_of,
}

-- _SENSITIVE_PATTERNS
abbrev pub sensitive_patterns : List String
sensitive_patterns = "*token*" ∷ "*secret*" ∷ "*password*" ∷ "*credential*" ∷ []

module _ {rt : Runtime} where
  -- `allow` if the test came out true, and the exception if it raised one.
  decide : (Bool → Decision) → Result rt Bool → Result rt Decision
  decide decision test = test >>= λ b. ok (decision b)

  -- self.get(plugin).get(k, default)
  unfoldable pub section_of : String → Value rt → String → Enforcer rt → Value rt
  section_of k default plugin e = Dict.get_or k default (permissions_of plugin e)

  -- any(fnmatch.fnmatch(s, p) for p in (section.get(k, []) or []))
  unfoldable pub is_listed : (String → String) → String → Result rt (Value rt) → Result rt Bool
  unfolding items_of any_match
  is_listed case s listed = do v ← listed; patterns ← items_of v; any_match case s patterns

  -- The check of a scheme and a host.
  unfoldable pub check_host :
      Lexicon rt → String → String → String → Enforcer rt → Result rt Decision
  unfolding decide section_of is_listed get_field
  check_host lex plugin scheme hostname e =
      let network = section_of "network" (dict end) plugin e in
      let listed = is_listed lex.lower hostname (get_field network "http_egress" (list nil)) in
      if scheme == "http" || scheme == "https"
      then decide (λ b. if b then allow http_egress plugin else deny http_egress plugin) listed
      else ok (deny http_egress plugin)

  unfoldable pub check_network_http :
      Lexicon rt → Urls → String → String → Enforcer rt → Result rt Decision
  unfolding check_host
  check_network_http lex urls plugin url e = elim (urls.urlparse url) [
    | none ↦ err conversion_error
    | some (scheme, hostname) ↦ check_host lex plugin scheme hostname e
  ]

  unfoldable pub check_network_raw : String → Enforcer rt → Result rt Decision
  unfolding decide section_of get_field truthy
  check_network_raw plugin e =
      decide (λ b. if b then allow raw_socket plugin else deny raw_socket plugin)
        (get_field (section_of "network" (dict end) plugin e) "raw_socket" (bool false) >>= λ v.
          ok (truthy v))

  unfoldable pub check_subprocess : String → List String → Enforcer rt → Result rt Decision
  unfolding decide section_of is_listed get_field last_part split_slashes
  check_subprocess plugin [] e = ok (deny subprocess plugin)
  check_subprocess plugin (command ∷ arguments) e =
      let binary = last_part "" (split_slashes command) in
      let section = section_of "subprocess" (dict end) plugin e in
      decide (λ b. if b then allow subprocess plugin else deny subprocess plugin)
        (is_listed (λ p. p) binary (get_field section "allow" (list nil)))

  unfoldable pub check_env : String → String → Enforcer rt → Result rt Decision
  unfolding decide section_of is_listed
  check_env plugin name e =
      decide (λ b. if b then allow env plugin else deny env plugin)
        (is_listed (λ p. p) name (ok (section_of "env" (list nil) plugin e)))

  -- `x in v`, for a text x; a text is searched for a part
  unfoldable pub is_in : String → Value rt → Result rt Bool
  unfolding has_infix
  is_in s (list nil) = ok false
  is_in s (list (cons (str t) vs)) =
      let rest = is_in s (list vs) in if t == s then ok true else rest
  is_in s (list (cons v vs)) = is_in s (list vs)
  is_in s (str t) = ok (has_infix s t)
  is_in s (dict d) = ok (elim (Dict.get s d) [ none ↦ false | some _ ↦ true ])
  is_in s v = err type_error

  -- What a rule that matches decides: writes pass the sandbox too.
  unfoldable pub granted : FileSystem → String → String → String → Enforcer rt → Decision
  unfolding check_filesystem_path
  granted fs plugin path mode e =
      let extras : List String = elim (Assoc.get plugin e.persist_spec_extras) [
        | none ↦ []
        | some ps ↦ ps
      ] in
      let sandboxed = is_passed (check_filesystem_path fs path extras e.persist_cli_extras) in
      if mode == "write"
      then if sandboxed then allow filesystem plugin else deny filesystem plugin
      else allow filesystem plugin

  -- Whether one entry of the rules is for the mode and the path; an entry whose path is no text raises.
  unfoldable pub rule_matches : FileSystem → String → String → Fields rt → Result rt Bool
  unfolding is_in fnmatch
  rule_matches fs path mode entry =
      let pattern : Result rt String = elim (Dict.get_or "path" (str "") entry) [
        | str p ↦ ok (fs.expanduser p)
        | _ ↦ err type_error
      ] in
      do
        p ← pattern
        in_modes ← is_in mode (Dict.get_or "modes" (list nil) entry)
        ok (if in_modes then fnmatch (fs.expanduser path) p else false)

  -- The loop over the rules.
  unfoldable pub apply_rules :
      FileSystem → String → String → String → Enforcer rt → Values rt → Result rt Decision
  unfolding rule_matches granted
  apply_rules fs plugin path mode e nil = ok (deny filesystem plugin)
  apply_rules fs plugin path mode e (cons (dict entry) rules) =
      let rest = apply_rules fs plugin path mode e rules in
      rule_matches fs path mode entry >>= λ b.
      if b then ok (granted fs plugin path mode e) else rest
  apply_rules fs plugin path mode e (cons v rules) = apply_rules fs plugin path mode e rules

  unfoldable pub check_filesystem :
      FileSystem → String → String → String → Enforcer rt → Result rt Decision
  unfolding section_of items_of apply_rules
  check_filesystem fs plugin path mode e =
      if mode == "read" || mode == "write"
      then (items_of (section_of "filesystem" (list nil) plugin e) >>= λ rules.
          apply_rules fs plugin path mode e rules)
      else ok (deny filesystem plugin)

  -- The two `continue` of `filter_sensitive`; no list to exclude is the empty list.
  unfoldable pub passes_filter : Lexicon rt → List String → String → Bool
  unfolding fnmatch
  passes_filter lex extra_exclude k =
      not (any (λ p. fnmatch (lex.lower k) (lex.lower p)) sensitive_patterns)
      && not (contains k extra_exclude)

  unfoldable pub filter_sensitive : Lexicon rt → List String → Fields rt → Fields rt
  unfolding passes_filter Dict.filter_keys
  filter_sensitive lex extra_exclude d = Dict.filter_keys (passes_filter lex extra_exclude) d

  -- Whether one entry of the peers is for the peer, and if so what it decides on a type of message.
  unfoldable pub peer_entry :
      String → String → Option String → Fields rt → Option (Result rt Decision)
  unfolding decide truthy is_in
  peer_entry plugin peer_id message_type entry =
      let messages = Dict.get_or "allow_messages" Value.none entry in
      let listed = if truthy messages then messages else list nil in
      let decision : Result rt Decision = elim message_type [
        | none ↦ ok (allow peers plugin)
        | some type ↦
            decide (λ b. if b then allow peers plugin else deny peers plugin)
              (is_in "*" listed >>= λ any_type. if any_type then ok true else is_in type listed)
      ] in
      elim (Dict.get_or "id" Value.none entry) [
        | str id ↦ if id == peer_id then some decision else none
        | _ ↦ none
      ]

  -- The loop over the peers.
  unfoldable pub find_peer : String → String → Option String → Values rt → Result rt Decision
  unfolding peer_entry
  find_peer plugin peer_id message_type nil = ok (deny peers plugin)
  find_peer plugin peer_id message_type (cons (dict entry) vs) =
      let rest = find_peer plugin peer_id message_type vs in
      elim (peer_entry plugin peer_id message_type entry) [ some decision ↦ decision | none ↦ rest ]
  find_peer plugin peer_id message_type (cons v vs) = find_peer plugin peer_id message_type vs

  unfoldable pub check_peer : String → String → Option String → Enforcer rt → Result rt Decision
  unfolding section_of items_of find_peer
  check_peer plugin peer_id message_type e =
      items_of (section_of "peers" (list nil) plugin e) >>= find_peer plugin peer_id message_type
