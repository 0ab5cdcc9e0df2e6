-- ===== src/Sandbox/Check.antt =====
-- `check_persist_path` of core/sandbox.py.
pub mod Laws
use agentwire_cue.Prelude.{
  String, Bool, true, false, ◌||◌, Option, none, some, List, [], ◌∷◌, ◌++◌, map, if◌then◌else◌,
}
use agentwire_cue.Sandbox.Path.{FileSystem, PurePath, abs, real, is_under}

-- SandboxError, by the code at the front of its message.
pub data SandboxError : Type 0 where
  path_blocked : PurePath → SandboxError
  path_not_allowed surface_invalid surface_violation : SandboxError

-- What a check comes to: it returns None, or it raises.
pub data Verdict : Type 0 where
  passed : Verdict
  denied : SandboxError → Verdict

abbrev pub is_passed : Verdict → Bool
is_passed passed = true
is_passed (denied e) = false

-- _DEFAULT_ALLOWED_PARENTS
abbrev pub default_allowed_parents : List String
default_allowed_parents = "~/.local/share/agentwire-cue" ∷ "/var/lib/agentwire-cue" ∷ []

-- _BLOCKED_PARENTS
abbrev pub blocked_parents : List String
blocked_parents =
    "~/.ssh" ∷ "~/.aws" ∷ "~/.gnupg" ∷ "~/.kube" ∷ "~/.docker" ∷ "/etc" ∷ "/etc/cron.d"
    ∷ "/etc/cron.daily" ∷ "/etc/cron.hourly" ∷ "/etc/cron.weekly" ∷ "/etc/cron.monthly" ∷ "/proc"
    ∷ "/sys" ∷ "/dev" ∷ "~/.bashrc" ∷ "~/.bash_profile" ∷ "~/.zshrc" ∷ "~/.zprofile" ∷ "~/.profile"
    ∷ "~/.netrc" ∷ "~/.pgpass" ∷ "~/.my.cnf" ∷ []

-- The first of the parents that one of the two paths is under.
unfoldable pub first_above : PurePath → PurePath → List PurePath → Option PurePath
first_above norm target [] = none
first_above norm target (parent ∷ parents) =
    let rest = first_above norm target parents in
    if is_under norm parent || is_under target parent then some parent else rest

module _ (fs : FileSystem) where
  -- No list of extras is the empty list.
  unfoldable pub build_allowed : List String → List String → List PurePath
  build_allowed spec_extras cli_extras =
      map (abs fs) default_allowed_parents ++ map (abs fs) spec_extras ++ map (abs fs) cli_extras

  -- The two loops: the first blocked parent found, then the first allowed one.
  unfoldable pub verdict_of : Option PurePath → Option PurePath → Verdict
  verdict_of (some parent) allowed = denied (path_blocked parent)
  verdict_of none none = denied path_not_allowed
  verdict_of none (some parent) = passed

  unfoldable pub check_persist_path : String → List String → List String → Verdict
  unfolding first_above build_allowed verdict_of
  check_persist_path path spec_extras cli_extras =
      let norm = abs fs path in
      let target = real fs path in
      verdict_of (first_above norm target (map (abs fs) blocked_parents))
        (first_above norm target (build_allowed spec_extras cli_extras))

  -- is_persist_path_allowed
  unfoldable pub is_persist_path_allowed : String → List String → List String → Bool
  unfolding check_persist_path
  is_persist_path_allowed path spec_extras cli_extras =
      is_passed (check_persist_path path spec_extras cli_extras)

  -- check_filesystem_path
  unfoldable pub check_filesystem_path : String → List String → List String → Verdict
  check_filesystem_path = check_persist_path
