-- ===== src/Tests/Startup.antt =====
-- Concrete inputs for the start of plugins and for redaction.
use agentwire_cue.Prelude.{
  String, true, false, Option, none, some, List, [], ◌∷◌, ◌==◌, ◌≡◌, refl, if◌then◌else◌,
}
use agentwire_cue.Prelude.Assoc as Assoc
use agentwire_cue.Value.{Value}
use agentwire_cue.Outcome.{ok}
use agentwire_cue.Loader.Startup.{Secret, resolved, check_secrets, load_all}
use agentwire_cue.Loader.Startup.Laws.{Checked, check_secrets-Checked}
use agentwire_cue.Redact.{CacheFile, parsed, url_error, catalog_of}
use agentwire_cue.Tests.Sample.{small}

abbrev environ : String → Option String
environ name = if name == "TOKEN" then some "t" else none

abbrev optional_first : List Secret
optional_first =
    record { name = "EXTRA"; required = false } ∷ record { name = "TOKEN"; required = true } ∷ []

optional_is_left_out : check_secrets environ optional_first ≡ resolved (("TOKEN", "t") ∷ [])
unfolding check_secrets Assoc.set
optional_is_left_out = refl

overlay_is_no_plugin :
    load_all {P = String}
      (λ p. some p)
      (some (
        record { path = "a/cue.yaml"; name = "cue.yaml"; is_symlink = false }
            ∷ record { path = "a/x.local.yaml"; name = "x.local.yaml"; is_symlink = false }
            ∷ [],
        [],
      ))
    ≡ "a/cue.yaml" ∷ []
unfolding load_all
overlay_is_no_plugin = refl

abbrev stale_null : CacheFile small
stale_null = record { mtime = 0; content = parsed Value.none }

-- A stale cache that holds null, and a gateway out of reach: no catalog.
null_is_no_catalog :
    (catalog_of (λ v cache. cache) false 100000 url_error (some stale_null)).0 ≡ ok Value.none
unfolding catalog_of
null_is_no_catalog = refl

check_secrets-Checked_example :
    Checked environ optional_first [] (check_secrets environ optional_first)
check_secrets-Checked_example = check_secrets-Checked environ optional_first
