-- ===== src/Sandbox/Surface/Laws.antt =====
-- Where the files of a surface are, and whose they are.
use Prim.Native.Char.{char}
use Prim.Native.String.{◌++◌}
use text.Mathlib.TextLemmas.{cons-append, nil-append, append_assoc}
use text.Mathlib.TextEquality.{Char-path}
use agentwire_cue.Prelude.{
  String, Char, code, ◌≡◌, refl, sym, ap, ◌∙◌, Bool, true, false, ◌&&◌, ◌||◌, Option, none, some,
  List, ◌==◌, arith, if◌then◌else◌, eq_iff, nat_eq,
}
use agentwire_cue.Expression.Lexer.{is_char}
use agentwire_cue.Statechart.Persist.{is_prefix}
use agentwire_cue.Sandbox.Path.{FileSystem, PurePath, abs}
use agentwire_cue.Sandbox.Check.{
  Verdict, passed, denied, surface_invalid, surface_violation, check_persist_path,
}
use agentwire_cue.Sandbox.Surface.{
  Surface, persist, peer, log, snapshot, backups, surface_of, surface_parent, name, parent_name,
  split_suffix, suffix, stem, check_name, check_snapshot_name, check_owner,
  check_surface_constraint, then_check, check_surface_path,
}

-- Whose file it is: the peer's or the plugin's.
abbrev pub owner_of : Surface → Option String → Option String → Option String
owner_of peer plugin_name peer_id = peer_id
owner_of _ plugin_name peer_id = plugin_name

-- The name that a file of the surface has, for its owner.
abbrev pub IsFileOf : Surface → String → String → Type 0
IsFileOf persist owner file = file ≡ owner ++ ".json"
IsFileOf peer owner file = file ≡ owner ++ ".json"
IsFileOf log owner file = file ≡ owner ++ ".log"
IsFileOf snapshot owner file = (stamp : String) × (file ≡ owner ++ "-" ++ stamp ++ ".json")
IsFileOf backups owner file = file ≡ owner ++ ".corrupt"

is_dot : (c : Char) → is_char b'.' c ≡ true → c ≡ char b'.' tt
is_dot c h = Char-path c (char b'.' tt) (ground arith)

dot-append : (s : String) → String.◌∷◌ (char b'.' tt) s ≡ "" ++ "." ++ s
dot-append s = sym (
    nil-append ("." ++ s)
    ∙ cons-append (char b'.' tt) String.[] s
    ∙ ap (String.◌∷◌ (char b'.' tt)) (nil-append s))

at_dot :
    (c : Char) (s front back : String) (dot : Bool)
    → is_char b'.' c ≡ dot
    → ◌≡◌ {A = Option (String × String)}
        (if dot then some (String.[], s) else none)
        (some (front, back))
    → String.◌∷◌ c s ≡ front ++ "." ++ back
at_dot c s front back true e h = cc (dot-append s, is_dot c e)
at_dot c s front back false e h = cc

split_suffix-append :
    (s front back : String) → split_suffix s ≡ some (front, back) → s ≡ front ++ "." ++ back
unfolding split_suffix
split_suffix-append String.[] front back h = cc
split_suffix-append (String.◌∷◌ c s) front back h = go (split_suffix s) (split_suffix-append s) h
  where
    go :
        (m : Option (String × String))
        → ((f b : String) → m ≡ some (f, b) → s ≡ f ++ "." ++ b)
        → ◌≡◌ {A = Option (String × String)}
            (elim m [
              | some (f, b) ↦ some (String.◌∷◌ c f, b)
              | none ↦ if is_char b'.' c then some (String.[], s) else none
            ])
            (some (front, back))
        → String.◌∷◌ c s ≡ front ++ "." ++ back
    go (some (f, b)) e k = grind (arith, cons-append, e f b refl)
    go none e k = at_dot c s front back (is_char b'.' c) refl k

-- A name with a suffix is its stem and that suffix.
stem-suffix :
    (s extension : String)
    → suffix s ≡ extension
    → (extension == "") ≡ false
    → s ≡ stem s ++ extension
unfolding suffix stem
stem-suffix s extension h e = go (split_suffix s) refl h
  where
    go :
        (m : Option (String × String))
        → split_suffix s ≡ m
        → (elim m [
          | none ↦ ""
          | some (front, back) ↦ if front == "" || back == "" then "" else "." ++ back
        ])
          ≡ extension
        → s ≡ stem s ++ extension
    go none f k = ground (arith, k, e, eq_iff extension "")
    go (some (front, back)) f k =
        let whole = split_suffix-append s front back f in
        ground (arith, k, e, f, whole, eq_iff extension "")

prefix-append : (p s : String) → is_prefix p s ≡ true → (rest : String) × (s ≡ p ++ rest)
unfolding is_prefix
prefix-append String.[] s h = (s, sym (nil-append s))
prefix-append (String.◌∷◌ c p) String.[] h = cc
prefix-append (String.◌∷◌ c p) (String.◌∷◌ d s) h =
    let (rest, e) = prefix-append p s (ground (arith, h)) in
    (rest, grind (arith, cons-append, Char-path c d (ground (arith, h)), e))

-- What check_name lets through is named after its owner.
check_name-passed :
    (path : PurePath) (extension : String) (given : Option String)
    → (extension == "") ≡ false
    → check_name path extension given ≡ passed
    → (owner : String) × (given ≡ some owner) × (name path ≡ owner ++ extension)
unfolding check_name
check_name-passed path extension none e h = cc
check_name-passed path extension (some owner) e h =
    let has_suffix : suffix (name path) ≡ extension =
      (eq_iff (suffix (name path)) extension).0 (ground (arith, h)) in
    let has_stem : stem (name path) ≡ owner =
      (eq_iff (stem (name path)) owner).0 (ground (arith, h)) in
    (
      owner,
      refl,
      stem-suffix (name path) extension has_suffix e ∙ ap (λ s. s ++ extension) has_stem,
    )

snapshot_named :
    (file owner : String)
    → suffix file ≡ ".json"
    → is_prefix (owner ++ "-") (stem file) ≡ true
    → IsFileOf snapshot owner file
snapshot_named file owner e h =
    let (stamp, f) = prefix-append (owner ++ "-") (stem file) h in
    (stamp, stem-suffix file ".json" e refl ∙ ap (λ s. s ++ ".json") f ∙ regroup owner stamp)
  where
    regroup : (a b : String) → ((a ++ "-") ++ b) ++ ".json" ≡ a ++ "-" ++ b ++ ".json"
    regroup a b = simp (append_assoc)

check_snapshot_name-passed :
    (path : PurePath) (given : Option String)
    → check_snapshot_name path given ≡ passed
    → (owner : String) × (given ≡ some owner) × IsFileOf snapshot owner (name path)
unfolding check_snapshot_name
check_snapshot_name-passed path none h = cc
check_snapshot_name-passed path (some owner) h = (
  owner,
  refl,
  snapshot_named (name path) owner ((eq_iff (suffix (name path)) ".json").0 (ground (arith, h)))
      (ground (arith, h)),
)

check_owner-passed :
    (path : PurePath) (surface : Surface) (plugin_name peer_id : Option String)
    → check_owner path surface plugin_name peer_id ≡ passed
    → (owner : String) × (owner_of surface plugin_name peer_id ≡ some owner)
      × IsFileOf surface owner (name path)
unfolding check_owner
check_owner-passed path persist plugin_name peer_id h =
    check_name-passed path ".json" plugin_name refl h
check_owner-passed path peer plugin_name peer_id h = check_name-passed path ".json" peer_id refl h
check_owner-passed path log plugin_name peer_id h = check_name-passed path ".log" plugin_name refl h
check_owner-passed path snapshot plugin_name peer_id h =
    check_snapshot_name-passed path plugin_name h
check_owner-passed path backups plugin_name peer_id h =
    check_name-passed path ".corrupt" plugin_name refl h

constraint-passed :
    (path : PurePath) (surface : Surface) (plugin_name peer_id : Option String)
    → check_surface_constraint path surface plugin_name peer_id ≡ passed
    → (parent_name path ≡ surface_parent surface)
      × (check_owner path surface plugin_name peer_id ≡ passed)
unfolding check_surface_constraint
constraint-passed path surface plugin_name peer_id h =
    go (parent_name path == surface_parent surface)
      (eq_iff (parent_name path) (surface_parent surface)).0
      (check_owner path surface plugin_name peer_id) h
  where
    go :
        {P : Type 0} (b : Bool)
        → (b ≡ true → P)
        → (v : Verdict) → (if b then v else denied surface_violation) ≡ passed
        → P × (v ≡ passed)
    go true p v k = (p refl, k)
    go false p v k = cc

-- A path that check_surface_path lets through has passed the sandbox, is in the directory of its
-- surface and has the name that the surface prescribes for the given plugin or peer.
pub check_surface_path-IsFileOf :
    (fs : FileSystem) (path surface : String) (plugin_name peer_id : Option String)
    (spec_extras cli_extras : List String)
    → check_surface_path fs path surface plugin_name peer_id spec_extras cli_extras ≡ passed
    → (s : Surface) × (owner : String) × (surface_of surface ≡ some s)
      × (check_persist_path fs path spec_extras cli_extras ≡ passed)
      × (parent_name (abs fs path) ≡ surface_parent s)
      × (owner_of s plugin_name peer_id ≡ some owner)
      × IsFileOf s owner (name (abs fs path))
unfolding check_surface_path
check_surface_path-IsFileOf fs path surface plugin_name peer_id spec_extras cli_extras h =
    go (surface_of surface) refl (check_persist_path fs path spec_extras cli_extras) refl h
  where
    go :
        (o : Option Surface)
        → surface_of surface ≡ o
        → (v : Verdict) → check_persist_path fs path spec_extras cli_extras ≡ v
        → (elim o [
          | none ↦ denied surface_invalid
          | some s ↦ then_check v (check_surface_constraint (abs fs path) s plugin_name peer_id)
        ])
          ≡ passed
        → (s : Surface) × (owner : String) × (surface_of surface ≡ some s)
          × (check_persist_path fs path spec_extras cli_extras ≡ passed)
          × (parent_name (abs fs path) ≡ surface_parent s)
          × (owner_of s plugin_name peer_id ≡ some owner)
          × IsFileOf s owner (name (abs fs path))
    go none e v f k = cc
    go (some s) e (denied x) f k = cc
    go (some s) e passed f k =
        let (at, owned) = constraint-passed (abs fs path) s plugin_name peer_id k in
        let (owner, given, file) = check_owner-passed (abs fs path) s plugin_name peer_id owned in
        (s, owner, e, f, at, given, file)

prefix-weaken : (p q s : String) → is_prefix (p ++ q) s ≡ true → is_prefix p s ≡ true
unfolding is_prefix
prefix-weaken String.[] q s h = refl
prefix-weaken (String.◌∷◌ c p) q String.[] h =
    ap (λ t. is_prefix t String.[]) (sym (cons-append c p q)) ∙ h
prefix-weaken (String.◌∷◌ c p) q (String.◌∷◌ d s) h =
    let same : (nat_eq (code c) (code d) && is_prefix (p ++ q) s) ≡ true =
      ap (λ t. is_prefix t (String.◌∷◌ d s)) (sym (cons-append c p q)) ∙ h in
    ground (arith, same, prefix-weaken p q s)

-- A snapshot of the plugin "a-b" is let through as a snapshot of the plugin "a".
pub check_snapshot_name-shared :
    (path : PurePath) (owner more : String)
    → (owner == "") ≡ false
    → check_snapshot_name path (some (owner ++ "-" ++ more)) ≡ passed
    → check_snapshot_name path (some owner) ≡ passed
unfolding check_snapshot_name
check_snapshot_name-shared path owner more nonempty h =
    let longer : is_prefix ((owner ++ "-" ++ more) ++ "-") (stem (name path)) ≡ true =
      ground (arith, h) in
    let shorter =
      prefix-weaken (owner ++ "-") (more ++ "-") (stem (name path))
        (ap (λ t. is_prefix t (stem (name path))) (regroup owner more) ∙ longer) in
    let json : (suffix (name path) == ".json") ≡ true = ground (arith, h) in
    ground (arith, nonempty, shorter, json)
  where
    regroup : (a b : String) → (a ++ "-") ++ (b ++ "-") ≡ (a ++ "-" ++ b) ++ "-"
    regroup a b = simp (append_assoc)
