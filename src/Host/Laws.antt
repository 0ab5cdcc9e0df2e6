-- ===== src/Host/Laws.antt =====
-- When a plugin is degraded.
use Prim.Native.String.{◌++◌}
use agentwire_cue.Prelude.{
  String, ◌≡◌, refl, ◌∙◌, Bool, true, false, not, List, [], ◌∷◌, arith, ◌==◌, ◌&&◌, ◌||◌, contains,
  all, map, if◌then◌else◌,
}
use agentwire_cue.Host.{
  Plugin, known_capabilities, loaded_names, append, loaded_peers, missing, reasons_of, degrade,
  check_requires,
}

abbrev is_empty : List String → Bool
is_empty [] = true
is_empty (s ∷ ss) = false

is_empty-append : (xs ys : List String) → is_empty (append xs ys) ≡ (is_empty xs && is_empty ys)
unfolding append
is_empty-append [] ys = refl
is_empty-append (x ∷ xs) ys = refl

is_empty-missing :
    (there : String → Bool) (show : String → String) (ns : List String)
    → is_empty (missing there show ns) ≡ all there ns
unfolding missing
is_empty-missing there show [] = refl
is_empty-missing there show (n ∷ ns) = go (there n) (is_empty-missing there show ns)
  where
    go :
        (b : Bool)
        → is_empty (missing there show ns) ≡ all there ns
        → is_empty (if b then missing there show ns else show n ∷ missing there show ns)
          ≡ (b && all there ns)
    go true h = h
    go false h = refl

degrade-degraded :
    (rs : List String) (p : Plugin) → (degrade rs p).degraded ≡ (p.degraded || not (is_empty rs))
unfolding degrade
degrade-degraded [] p = ground arith
degrade-degraded (r ∷ rs) p = ground arith

-- Each plugin that `p` requires is loaded or `p` itself, each peer is an alias of some plugin, and each
-- capability is known.
abbrev pub has_all : List Plugin → Plugin → Bool
has_all ps p =
    all (λ n. if n == p.name then true else contains n (loaded_names ps)) p.requires.plugins
    && all (λ n. contains n (loaded_peers ps)) p.requires.peers
    && all (λ n. contains n known_capabilities) p.requires.capabilities

reasons_of-degraded :
    (repr : String → String) (ps : List Plugin) (p : Plugin)
    → (degrade (reasons_of repr ps p) p).degraded ≡ (p.degraded || not (has_all ps p))
unfolding reasons_of
reasons_of-degraded repr ps p =
    let plugins =
      missing (λ n. if n == p.name then true else contains n (loaded_names ps))
        (λ n. "plugin " ++ repr n ++ " not loaded") p.requires.plugins in
    let peers =
      missing (λ n. contains n (loaded_peers ps))
        (λ n. "peer alias " ++ repr n ++ " not configured") p.requires.peers in
    let capabilities =
      missing (λ n. contains n known_capabilities)
        (λ n. "capability " ++ repr n ++ " not supported by host") p.requires.capabilities in
    degrade-degraded (append plugins (append peers capabilities)) p
    ∙ ground (
      arith,
      is_empty-append plugins (append peers capabilities),
      is_empty-append peers capabilities,
      is_empty-missing (λ n. if n == p.name then true else contains n (loaded_names ps))
          (λ n. "plugin " ++ repr n ++ " not loaded") p.requires.plugins,
      is_empty-missing (λ n. contains n (loaded_peers ps))
          (λ n. "peer alias " ++ repr n ++ " not configured") p.requires.peers,
      is_empty-missing (λ n. contains n known_capabilities)
          (λ n. "capability " ++ repr n ++ " not supported by host") p.requires.capabilities,
    )

-- What the check leaves of a plugin.
degrade-name : (rs : List String) (p : Plugin) → (degrade rs p).name ≡ p.name
unfolding degrade
degrade-name [] p = refl
degrade-name (r ∷ rs) p = refl

checked_row :
    (repr : String → String) (all_plugins ps : List Plugin)
    → map {B = String × Bool}
        (λ p. (p.name, p.degraded))
        (map (λ p. degrade (reasons_of repr all_plugins p) p) ps)
      ≡ map {B = String × Bool} (λ p. (p.name, p.degraded || not (has_all all_plugins p))) ps
checked_row repr all_plugins [] = refl
checked_row repr all_plugins (p ∷ ps) =
    let rs = reasons_of repr all_plugins p in
    λ i.
      (degrade-name rs p i, reasons_of-degraded repr all_plugins p i)
      ∷ checked_row repr all_plugins ps i

-- _check_requires leaves the plugins in their order, and degrades a plugin exactly if it was degraded
-- or requires a plugin, a peer or a capability that is not there.
pub check_requires-degraded :
    (repr : String → String) (ps : List Plugin)
    → map {B = String × Bool} (λ p. (p.name, p.degraded)) (check_requires repr ps)
      ≡ map {B = String × Bool} (λ p. (p.name, p.degraded || not (has_all ps p))) ps
unfolding check_requires
check_requires-degraded repr ps = checked_row repr ps ps
