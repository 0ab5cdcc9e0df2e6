-- ===== src/Tests/Sandboxes.antt =====
-- The theorems on the sandbox at concrete paths.
use Prim.Native.String.{◌++◌}
use agentwire_cue.Prelude.{String, ◌≡◌, refl, not, ◌&&◌, ◌||◌, none, some, [], ◌∷◌, if◌then◌else◌}
use agentwire_cue.Expression.Lexer.{is_char}
use agentwire_cue.Sandbox.Path.{FileSystem, path_of, abs, real, is_under}
use agentwire_cue.Sandbox.Check.{
  passed, denied, path_blocked, default_allowed_parents, blocked_parents, check_persist_path,
  is_persist_path_allowed,
}
use agentwire_cue.Sandbox.Check.Laws.{is_below, is_persist_path_allowed-layers}
use agentwire_cue.Sandbox.Surface.{
  Surface, surface_of, surface_parent, name, parent_name, check_snapshot_name, check_surface_path,
}
use agentwire_cue.Sandbox.Surface.Laws.{
  owner_of, IsFileOf, check_surface_path-IsFileOf, check_snapshot_name-shared,
}

abbrev pub expand : String → String
expand String.[] = String.[]
expand (String.◌∷◌ c s) = if is_char 126 c then "/home/u" ++ s else String.◌∷◌ c s

-- A process in /srv, with no symbolic links.
abbrev pub fs : FileSystem
fs = record { expanduser = expand; cwd = "/srv"; realpath = λ s. s }

is_persist_path_allowed-layers_example :
    is_persist_path_allowed fs "data/lamp.json" ("/srv/data" ∷ []) [] ≡ (
      not (is_below fs "data/lamp.json" blocked_parents)
      && (is_below fs "data/lamp.json" default_allowed_parents
          || is_below fs "data/lamp.json" ("/srv/data" ∷ [])
          || is_below fs "data/lamp.json" []))
is_persist_path_allowed-layers_example =
    is_persist_path_allowed-layers fs "data/lamp.json" ("/srv/data" ∷ []) []

blocked : check_persist_path fs "/etc/passwd" [] [] ≡ denied (path_blocked (path_of "/etc"))
unfolding check_persist_path is_under abs real
blocked = refl

abbrev snapshot_path : String
snapshot_path = "/var/lib/agentwire-cue/snapshots/a-b-7.json"

accepted : check_surface_path fs snapshot_path "snapshot" (some "a-b") none [] [] ≡ passed
unfolding check_surface_path is_under abs real
accepted = refl

check_surface_path-IsFileOf_example :
    (s : Surface) × (owner : String) × (surface_of "snapshot" ≡ some s)
    × (check_persist_path fs snapshot_path [] [] ≡ passed)
    × (parent_name (abs fs snapshot_path) ≡ surface_parent s)
    × (owner_of s (some "a-b") none ≡ some owner)
    × IsFileOf s owner (name (abs fs snapshot_path))
check_surface_path-IsFileOf_example =
    check_surface_path-IsFileOf fs snapshot_path "snapshot" (some "a-b") none [] [] accepted

named : check_snapshot_name (path_of snapshot_path) (some ("a" ++ "-" ++ "b")) ≡ passed
unfolding check_snapshot_name path_of
named = refl

check_snapshot_name-shared_example : check_snapshot_name (path_of snapshot_path) (some "a") ≡ passed
check_snapshot_name-shared_example =
    check_snapshot_name-shared (path_of snapshot_path) "a" "b" refl named
