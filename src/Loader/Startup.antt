-- ===== src/Loader/Startup.antt =====
-- `check_secrets`, `discover_plugins` and `load_all` of core/loader.py.
pub mod Laws
use agentwire_cue.Prelude.{
  String, Bool, Option, none, some, List, [], ◌∷◌, ◌++◌, ◌||◌, if◌then◌else◌,
}
use agentwire_cue.Prelude.Assoc as Assoc
use agentwire_cue.Prelude.Assoc.{Assoc}
use agentwire_cue.A2a.Client.{is_suffix}

-- An entry of spec.secrets: the name of a variable, and bool(required).
pub record Secret : Type 0 where
  pub name : String
  pub required : Bool

-- The dict that is resolved, or the LoaderError with the name of the missing variable.
pub data Secrets : Type 0 where
  resolved : Assoc String → Secrets
  not_set : String → Secrets

-- The loop, with the dict so far. `environ` is os.environ.get.
unfoldable pub check_secrets_from : (String → Option String) → List Secret → Assoc String → Secrets
unfolding Assoc.set
check_secrets_from environ [] found = resolved found
check_secrets_from environ (secret ∷ secrets) found =
    let without = check_secrets_from environ secrets found in
    elim (environ secret.name) [
      | none ↦ if secret.required then not_set secret.name else without
      | some value ↦ check_secrets_from environ secrets (Assoc.set secret.name value found)
    ]

-- `secrets or []` is the list itself.
unfoldable pub check_secrets : (String → Option String) → List Secret → Secrets
unfolding check_secrets_from
check_secrets environ secrets = check_secrets_from environ secrets []

-- A path that rglob finds.
pub record Found : Type 0 where
  pub path : String
  pub name : String
  pub is_symlink : Bool

-- The paths of one pattern that the loop keeps.
unfoldable pub keep_plugins : List Found → List String
unfolding is_suffix
keep_plugins [] = []
keep_plugins (p ∷ ps) =
    let rest = keep_plugins ps in
    if p.is_symlink
    then rest
    else if is_suffix ".local.yaml" p.name || is_suffix ".local.yml" p.name
    then rest
    else p.path ∷ rest

-- `yaml` and `yml` are the sorted paths of the two patterns; `none` is a directory that is missing.
unfoldable pub discover_plugins : Option (List Found × List Found) → List String
unfolding keep_plugins
discover_plugins none = []
discover_plugins (some (yaml, yml)) = keep_plugins yaml ++ keep_plugins yml

-- `load` is `load_plugin`, which raises nothing.
unfoldable pub load_paths : {P : Type 0} → (String → Option P) → List String → List P
load_paths load [] = []
load_paths load (path ∷ paths) =
    let rest = load_paths load paths in
    elim (load path) [ none ↦ rest | some plugin ↦ plugin ∷ rest ]

unfoldable pub load_all :
    {P : Type 0} → (String → Option P) → Option (List Found × List Found) → List P
unfolding load_paths discover_plugins
load_all load directory = load_paths load (discover_plugins directory)
