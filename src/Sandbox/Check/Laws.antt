-- ===== src/Sandbox/Check/Laws.antt =====
-- Which paths the sandbox lets through.
use agentwire_cue.Prelude.{
  String, ◌≡◌, refl, ap, ◌∙◌, Bool, true, false, not, ◌&&◌, ◌||◌, Option, none, some, List, [], ◌∷◌,
  ◌++◌, map, any, arith,
}
use agentwire_cue.Sandbox.Path.{FileSystem, PurePath, abs, real, is_under}
use agentwire_cue.Sandbox.Check.{
  is_passed, verdict_of, denied, path_blocked, default_allowed_parents, blocked_parents,
  first_above, build_allowed, check_persist_path, is_persist_path_allowed,
}

module _ (fs : FileSystem) (path : String) where
  -- The path, or what it links to, is under one of the directories.
  abbrev pub is_below : List String → Bool
  is_below dirs =
      any (λ dir. is_under (abs fs path) (abs fs dir) || is_under (real fs path) (abs fs dir)) dirs

  abbrev found : {A : Type 0} → Option A → Bool
  found none = false
  found (some a) = true

  first_above-is_below :
      (dirs : List String)
      → found (first_above (abs fs path) (real fs path) (map (abs fs) dirs)) ≡ is_below dirs
  unfolding first_above
  first_above-is_below [] = refl
  first_above-is_below (dir ∷ dirs) = ground (arith, first_above-is_below dirs)

  first_above-append :
      (ps qs : List PurePath)
      → found (first_above (abs fs path) (real fs path) (ps ++ qs)) ≡ (
          found (first_above (abs fs path) (real fs path) ps)
          || found (first_above (abs fs path) (real fs path) qs))
  unfolding first_above
  first_above-append [] qs = refl
  first_above-append (p ∷ ps) qs = ground (arith, first_above-append ps qs)

  found-build_allowed :
      (spec_extras cli_extras : List String)
      → found (first_above (abs fs path) (real fs path) (build_allowed fs spec_extras cli_extras))
        ≡ (is_below default_allowed_parents || is_below spec_extras || is_below cli_extras)
  unfolding build_allowed
  found-build_allowed spec_extras cli_extras =
      let spec = map (abs fs) spec_extras in
      let cli = map (abs fs) cli_extras in
      ground (
        arith,
        first_above-append (map (abs fs) default_allowed_parents) (spec ++ cli),
        first_above-append spec cli,
        first_above-is_below default_allowed_parents,
        first_above-is_below spec_extras,
        first_above-is_below cli_extras,
      )

  is_passed-verdict_of :
      (b a : Option PurePath) → is_passed (verdict_of fs b a) ≡ (not (found b) && found a)
  unfolding verdict_of
  is_passed-verdict_of b a = ground arith

  -- A path is allowed if neither it nor what it links to is under a blocked directory, and the one or
  -- the other is under a directory that is allowed by default, by the spec or by the command line.
  pub is_persist_path_allowed-layers :
      (spec_extras cli_extras : List String)
      → is_persist_path_allowed fs path spec_extras cli_extras ≡ (
          not (is_below blocked_parents)
          && (is_below default_allowed_parents || is_below spec_extras || is_below cli_extras))
  unfolding is_persist_path_allowed check_persist_path
  is_persist_path_allowed-layers spec_extras cli_extras =
      let blocked = first_above (abs fs path) (real fs path) (map (abs fs) blocked_parents) in
      let allowed =
        first_above (abs fs path) (real fs path) (build_allowed fs spec_extras cli_extras) in
      is_passed-verdict_of blocked allowed
      ∙ ap (λ b. not b && found allowed) (first_above-is_below blocked_parents)
      ∙ ap (λ a. not (is_below blocked_parents) && a) (found-build_allowed spec_extras cli_extras)

  verdict_of-blocked :
      (b a c : Option PurePath) (parent : PurePath)
      → verdict_of fs b a ≡ denied (path_blocked parent)
      → verdict_of fs b c ≡ denied (path_blocked parent)
  unfolding verdict_of
  verdict_of-blocked (some p) a c parent h = h
  verdict_of-blocked none none c parent h = cc
  verdict_of-blocked none (some p) c parent h = cc

  -- What is refused as blocked with no extra directories is refused so with all.
  pub check_persist_path-blocked :
      (parent : PurePath) (spec_extras cli_extras : List String)
      → check_persist_path fs path [] [] ≡ denied (path_blocked parent)
      → check_persist_path fs path spec_extras cli_extras ≡ denied (path_blocked parent)
  unfolding check_persist_path
  check_persist_path-blocked parent spec_extras cli_extras h =
      verdict_of-blocked (first_above (abs fs path) (real fs path) (map (abs fs) blocked_parents))
        (first_above (abs fs path) (real fs path) (build_allowed fs [] []))
        (first_above (abs fs path) (real fs path) (build_allowed fs spec_extras cli_extras)) parent
        h
