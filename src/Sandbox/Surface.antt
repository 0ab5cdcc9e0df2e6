-- ===== src/Sandbox/Surface.antt =====
-- `_check_surface_constraint` and `check_surface_path` of core/sandbox.py.
pub mod Laws
use Prim.Native.String.{◌++◌}
use agentwire_cue.Prelude.{
  String, Char, Bool, true, false, not, ◌||◌, Option, none, some, List, [], ◌∷◌, ◌==◌,
  if◌then◌else◌,
}
use agentwire_cue.Expression.Lexer.{is_char}
use agentwire_cue.Statechart.Persist.{is_prefix}
use agentwire_cue.Sandbox.Path.{FileSystem, PurePath, abs}
use agentwire_cue.Sandbox.Check.{
  Verdict, passed, denied, surface_invalid, surface_violation, check_persist_path,
}

-- VALID_SURFACES
pub data Surface : Type 0 where
  persist peer log snapshot backups : Surface

unfoldable pub surface_of : String → Option Surface
surface_of s =
    if s == "persist"
    then some persist
    else if s == "peer"
    then some peer
    else if s == "log"
    then some log
    else if s == "snapshot"
    then some snapshot
    else if s == "backups"
    then some backups
    else none

-- _SURFACE_PARENT
abbrev pub surface_parent : Surface → String
surface_parent persist = "state"
surface_parent peer = "peers"
surface_parent log = "logs"
surface_parent snapshot = "snapshots"
surface_parent backups = "state"

-- path.name and path.parent.name; "" at the root
unfoldable pub last_part : String → List String → String
last_part c [] = c
last_part c (d ∷ parts) = last_part d parts

unfoldable pub name : PurePath → String
unfolding last_part
name path = last_part "" path.parts

unfoldable pub parent_parts : List String → List String
parent_parts [] = []
parent_parts (c ∷ []) = []
parent_parts (c ∷ d ∷ parts) = c ∷ parent_parts (d ∷ parts)

unfoldable pub parent_name : PurePath → String
unfolding last_part parent_parts
parent_name path = last_part "" (parent_parts path.parts)

-- What stands before and behind the last dot.
unfoldable pub split_suffix : String → Option (String × String)
split_suffix String.[] = none
split_suffix (String.◌∷◌ c s) = elim (split_suffix s) [
  | some (front, back) ↦ some (String.◌∷◌ c front, back)
  | none ↦ if is_char b'.' c then some (String.[], s) else none
]

-- path.suffix, path.stem: a dot at the front or at the end begins no suffix
unfoldable pub suffix : String → String
unfolding split_suffix
suffix s = elim (split_suffix s) [
  | none ↦ ""
  | some (front, back) ↦ if front == "" || back == "" then "" else "." ++ back
]

unfoldable pub stem : String → String
unfolding split_suffix
stem s = elim (split_suffix s) [
  | none ↦ s
  | some (front, back) ↦ if front == "" || back == "" then s else front
]

-- `if path.suffix != extension or path.stem != owner`, after `if not owner`
unfoldable pub check_name : PurePath → String → Option String → Verdict
unfolding name suffix stem
check_name path extension none = denied surface_violation
check_name path extension (some owner) =
    if owner == ""
    then denied surface_violation
    else if not (suffix (name path) == extension) || not (stem (name path) == owner)
    then denied surface_violation
    else passed

unfoldable pub check_snapshot_name : PurePath → Option String → Verdict
unfolding name suffix stem is_prefix
check_snapshot_name path none = denied surface_violation
check_snapshot_name path (some owner) =
    if owner == ""
    then denied surface_violation
    else if not (suffix (name path) == ".json") || not (is_prefix (owner ++ "-") (stem (name path)))
    then denied surface_violation
    else passed

unfoldable pub check_owner : PurePath → Surface → Option String → Option String → Verdict
unfolding check_name check_snapshot_name
check_owner path persist plugin_name peer_id = check_name path ".json" plugin_name
check_owner path peer plugin_name peer_id = check_name path ".json" peer_id
check_owner path log plugin_name peer_id = check_name path ".log" plugin_name
check_owner path snapshot plugin_name peer_id = check_snapshot_name path plugin_name
check_owner path backups plugin_name peer_id = check_name path ".corrupt" plugin_name

-- `_check_surface_constraint`, of a surface that is valid
unfoldable pub check_surface_constraint :
    PurePath → Surface → Option String → Option String → Verdict
unfolding check_owner parent_name
check_surface_constraint path surface plugin_name peer_id =
    if parent_name path == surface_parent surface
    then check_owner path surface plugin_name peer_id
    else denied surface_violation

-- One check after another.
abbrev pub then_check : Verdict → Verdict → Verdict
then_check passed v = v
then_check (denied e) v = denied e

unfoldable pub check_surface_path :
    FileSystem
    → String
    → String
    → Option String
    → Option String
    → List String
    → List String
    → Verdict
unfolding surface_of check_persist_path check_surface_constraint
check_surface_path fs path surface plugin_name peer_id spec_extras cli_extras =
    elim (surface_of surface) [
      | none ↦ denied surface_invalid
      | some s ↦
          then_check (check_persist_path fs path spec_extras cli_extras)
            (check_surface_constraint (abs fs path) s plugin_name peer_id)
    ]
