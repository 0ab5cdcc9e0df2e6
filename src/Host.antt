-- ===== src/Host.antt =====
-- core/host.py: the check of what plugins require, the sending of messages for them, and the choice of
-- their triggers.
pub mod Laws
use Prim.Native.String.{◌++◌}
use agentwire_cue.Prelude.{
  String, Bool, true, false, not, Option, none, some, List, [], ◌∷◌, ◌==◌, ◌&&◌, contains, map,
  if◌then◌else◌,
}
use agentwire_cue.Prelude.Assoc as Assoc
use agentwire_cue.Prelude.Assoc.{Assoc}
use agentwire_cue.Value.{Runtime, Value, Fields, str, list, dict, nil, end, field, truthy}
use agentwire_cue.Value.Dict
use agentwire_cue.Outcome.{Result, ok, err}
use agentwire_cue.Permission.Enforcer.{Decision, Enforcer, permissions_of}
use agentwire_cue.Permission.Checks.{check_peer}

-- The `requires` block of a plugin.
pub record Requires : Type 0 where
  pub plugins : List String
  pub peers : List String
  pub capabilities : List String

-- What the check reads of a plugin and writes to it: its name, the aliases of its peers, its
-- requirements, and the reasons for its degradation; it is degraded if there are any.
pub record Plugin : Type 0 where
  pub name : String
  pub aliases : List String
  pub requires : Requires
  pub degraded : Bool
  pub degraded_reason : String

-- KNOWN_CAPABILITIES
abbrev pub known_capabilities : List String
known_capabilities = "metadata" ∷ []

-- The names of the plugins, and the union of their aliases.
unfoldable pub loaded_names : List Plugin → List String
loaded_names [] = []
loaded_names (p ∷ ps) = p.name ∷ loaded_names ps

unfoldable pub append : List String → List String → List String
append [] ys = ys
append (x ∷ xs) ys = x ∷ append xs ys

unfoldable pub loaded_peers : List Plugin → List String
unfolding append
loaded_peers [] = []
loaded_peers (p ∷ ps) = append p.aliases (loaded_peers ps)

-- The reason for each name that is missing; `show` is the message for it.
unfoldable pub missing : (String → Bool) → (String → String) → List String → List String
missing there show [] = []
missing there show (n ∷ ns) =
    let rest = missing there show ns in if there n then rest else show n ∷ rest

-- `repr` is repr() of a text.
unfoldable pub reasons_of : (String → String) → List Plugin → Plugin → List String
unfolding missing append loaded_names loaded_peers
reasons_of repr ps p =
    let plugins =
      missing (λ n. if n == p.name then true else contains n (loaded_names ps))
        (λ n. "plugin " ++ repr n ++ " not loaded") p.requires.plugins in
    let peers =
      missing (λ n. contains n (loaded_peers ps))
        (λ n. "peer alias " ++ repr n ++ " not configured") p.requires.peers in
    let capabilities =
      missing (λ n. contains n known_capabilities)
        (λ n. "capability " ++ repr n ++ " not supported by host") p.requires.capabilities in
    append plugins (append peers capabilities)

-- "; ".join(reasons)
unfoldable pub join_reasons : List String → String
join_reasons [] = ""
join_reasons (r ∷ []) = r
join_reasons (r ∷ s ∷ rs) = r ++ "; " ++ join_reasons (s ∷ rs)

unfoldable pub degrade : List String → Plugin → Plugin
unfolding join_reasons
degrade [] p = p
degrade (r ∷ rs) p = record p { degraded = true; degraded_reason = join_reasons (r ∷ rs) }

-- `_check_requires`
unfoldable pub check_requires : (String → String) → List Plugin → List Plugin
unfolding degrade reasons_of
check_requires repr ps = map (λ p. degrade (reasons_of repr ps p) p) ps

-- The classes of triggers that `_setup_triggers` makes.
pub data TriggerKind : Type 0 where
  cron a2a content_match history_change : TriggerKind

unfoldable pub trigger_kind : String → Option TriggerKind
trigger_kind type =
    if type == "cron"
    then some cron
    else if type == "a2a_message_type"
    then some a2a
    else if type == "a2a_content_match"
    then some content_match
    else if type == "history_change"
    then some history_change
    else none

-- The triggers of one plugin; `none` is TriggerSetupError.
unfoldable pub kinds_of : String → List String → Option (List (String × TriggerKind))
unfolding trigger_kind
kinds_of plugin [] = some []
kinds_of plugin (type ∷ types) =
    let rest = kinds_of plugin types in
    elim (trigger_kind type) [
      | none ↦ none
      | some kind ↦ elim rest [ none ↦ none | some kinds ↦ some ((plugin, kind) ∷ kinds) ]
    ]

unfoldable pub concat :
    List (String × TriggerKind) → List (String × TriggerKind) → List (String × TriggerKind)
concat [] others = others
concat (k ∷ kinds) others = k ∷ concat kinds others

-- The triggers of the plugins that are not degraded, each with the types of its triggers.
unfoldable pub setup_triggers : List (Plugin × List String) → Option (List (String × TriggerKind))
unfolding kinds_of concat
setup_triggers [] = some []
setup_triggers ((p, types) ∷ ps) =
    let rest = setup_triggers ps in
    let own : Option (List (String × TriggerKind)) =
      if p.degraded then some [] else kinds_of p.name types in
    elim own [
      | none ↦ none
      | some kinds ↦ elim rest [ none ↦ none | some others ↦ some (concat kinds others) ]
    ]

module _ {rt : Runtime} where
  -- The permission check that `_wrap_send` gives the client: none if the plugin lists no peers.
  unfoldable pub permission_check : Option (Enforcer rt) → String → String → Option (Result rt Bool)
  unfolding truthy check_peer
  permission_check none plugin peer = none
  permission_check (some e) plugin peer =
      let allowed : Result rt Bool = elim (check_peer plugin peer (some "A2A_MESSAGE") e) [
        | err x ↦ err x
        | ok d ↦ ok d.allowed
      ] in
      if truthy (Dict.get_or "peers" (list nil) (permissions_of plugin e))
      then some allowed
      else none
