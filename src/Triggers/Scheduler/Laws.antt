-- ===== src/Triggers/Scheduler/Laws.antt =====
-- The two tables of a scheduler against each other.
use mathlib.Core.Path.{subst}
use agentwire_cue.Prelude.{
  String, ◌≡◌, refl, sym, ap, ◌∙◌, Bool, true, false, ◌||◌, Option, none, some, List, [], ◌∷◌, ◌++◌,
  contains, arith, ◌==◌, if◌then◌else◌, eq_iff,
}
use agentwire_cue.Prelude.Assoc as Assoc
use agentwire_cue.Prelude.Assoc.{Assoc, get-set, get-remove}
use agentwire_cue.Value.{Runtime}
use agentwire_cue.Triggers.Scheduler.{
  Trigger, Scheduler, Registration, registered, setup_failed, ids_of, insert, register, tear_down,
  unregister_plugin, lookup_all, triggers_of,
}

abbrev pub OwnedBy : {rt : Runtime} → String → Option (Trigger rt) → Type 0
OwnedBy plugin none = ⊥
OwnedBy plugin (some t) = t.plugin ≡ plugin

-- Every id in a plugin's list is that of a registered trigger of the plugin.
abbrev pub Indexed : {rt : Runtime} → Scheduler rt → Type 0
Indexed s =
    (plugin id : String)
    → contains id (ids_of plugin s) ≡ true
    → OwnedBy plugin (Assoc.get id s.triggers)

contains-append :
    (id x : String) (ids : List String) → contains id (ids ++ x ∷ []) ≡ (contains id ids || x == id)
contains-append id x [] = ground arith
contains-append id x (y ∷ ids) = ground (arith, contains-append id x ids)

module _ {rt : Runtime} where
  get-tear_down :
      (ids : List String) (id : String) (triggers : Assoc (Trigger rt))
      → Assoc.get id (tear_down ids triggers).1
        ≡ (if contains id ids then none else Assoc.get id triggers)
  unfolding tear_down
  get-tear_down [] id triggers = refl
  get-tear_down (i ∷ ids) id triggers =
      ground (arith, get-tear_down ids id (Assoc.remove i triggers), get-remove i id triggers)

  -- After unregister_plugin the triggers of the plugin are gone, every other trigger is as it was, and
  -- the plugin has no ids.
  pub get-unregister_plugin :
      (plugin : String) (s : Scheduler rt) (id : String)
      → (Assoc.get id (unregister_plugin plugin s).1.triggers
          ≡ (if contains id (ids_of plugin s) then none else Assoc.get id s.triggers))
        × (ids_of plugin (unregister_plugin plugin s).1 ≡ [])
  unfolding unregister_plugin ids_of
  get-unregister_plugin plugin s id = (
    get-tear_down (ids_of plugin s) id s.triggers,
    ground (arith, get-remove plugin plugin s.by_plugin, eq_iff plugin plugin),
  )

  ids_of-insert :
      (t : Trigger rt) (s : Scheduler rt) (plugin id : String)
      → contains id (ids_of plugin (insert t s)) ≡ (
          if t.plugin == plugin
          then contains id (ids_of plugin s) || t.id == id
          else contains id (ids_of plugin s))
  unfolding insert ids_of
  ids_of-insert t s plugin id =
      ap (λ o. contains id (elim o as (λ x. List String) [ none ↦ [] | some ids ↦ ids ]))
        (get-set t.plugin plugin (ids_of t.plugin s ++ t.id ∷ []) s.by_plugin)
      ∙ go (t.plugin == plugin) refl
    where
      go :
          (b : Bool)
          → (t.plugin == plugin) ≡ b
          → contains id
              (elim (if b
                then some (ids_of t.plugin s ++ t.id ∷ [])
                else Assoc.get plugin s.by_plugin) [ none ↦ [] | some ids ↦ ids ])
            ≡ (if b
                then contains id (ids_of plugin s) || t.id == id
                else contains id (ids_of plugin s))
      go true e =
          contains-append id t.id (ids_of t.plugin s)
          ∙ ap (λ p. contains id (ids_of p s) || t.id == id) ((eq_iff t.plugin plugin).0 e)
      go false e = refl

  ids_of-unregister :
      (gone : String) (s : Scheduler rt) (plugin id : String)
      → contains id (ids_of plugin (unregister_plugin gone s).1)
        ≡ (if gone == plugin then false else contains id (ids_of plugin s))
  unfolding unregister_plugin ids_of
  ids_of-unregister gone s plugin id = ground (arith, get-remove gone plugin s.by_plugin)

  -- A new entry, whose id no trigger has yet.
  insert-Indexed :
      (t : Trigger rt) (s : Scheduler rt)
      → Assoc.get t.id s.triggers ≡ none
      → Indexed s
      → Indexed (insert t s)
  unfolding insert
  insert-Indexed t s fresh h plugin id listed =
      rw (get-set t.id id t s.triggers) (
        go (t.id == id) refl (t.plugin == plugin) refl (sym (ids_of-insert t s plugin id) ∙ listed))
    where
      old : contains id (ids_of plugin s) ≡ true → t.id ≡ id → ⊥
      old k e =
          subst (OwnedBy plugin) (ap (λ i. Assoc.get i s.triggers) (sym e) ∙ fresh) (h plugin id k)

      go :
          (b : Bool)
          → (t.id == id) ≡ b
          → (c : Bool) → (t.plugin == plugin) ≡ c
          → (if c then contains id (ids_of plugin s) || b else contains id (ids_of plugin s)) ≡ true
          → OwnedBy plugin (if b then some t else Assoc.get id s.triggers)
      go true e true f k = (eq_iff t.plugin plugin).0 f
      go true e false f k = absurd (old k ((eq_iff t.id id).0 e))
      go false e true f k = h plugin id (ground (arith, k))
      go false e false f k = h plugin id k

  unregister_plugin-Indexed :
      (gone : String) (s : Scheduler rt) → Indexed s → Indexed (unregister_plugin gone s).1
  unfolding unregister_plugin
  unregister_plugin-Indexed gone s h plugin id listed =
      rw (get-tear_down (ids_of gone s) id s.triggers) (
        go (contains id (ids_of gone s)) refl (gone == plugin) refl
          (sym (ids_of-unregister gone s plugin id) ∙ listed))
    where
      both : (o : Option (Trigger rt)) → OwnedBy gone o → OwnedBy plugin o → gone ≡ plugin
      both (some t) p q = sym p ∙ q
      both none p q = absurd p

      go :
          (b : Bool)
          → contains id (ids_of gone s) ≡ b
          → (c : Bool) → (gone == plugin) ≡ c
          → (if c then false else contains id (ids_of plugin s)) ≡ true
          → OwnedBy plugin (if b then none else Assoc.get id s.triggers)
      go b e true f k = absurd (ground (arith, k))
      go false e false f k = h plugin id k
      go true e false f k =
          let same : gone ≡ plugin = both (Assoc.get id s.triggers) (h gone id e) (h plugin id k) in
          absurd (ground (arith, f, (eq_iff gone plugin).1 same))

-- What a host does with a scheduler, if it registers no trigger under an id that is in use.
pub data Step {rt : Runtime} (setup : Trigger rt → Bool)
    : Scheduler rt → Scheduler rt → Type 0 where
  registers :
      {s : Scheduler rt} (t : Trigger rt)
      → Assoc.get t.id s.triggers ≡ none
      → Step setup s (register setup t s).1
  unregisters : {s : Scheduler rt} (plugin : String) → Step setup s (unregister_plugin plugin s).1

pub data Steps {rt : Runtime} (setup : Trigger rt → Bool)
    : Scheduler rt → Scheduler rt → Type 0 where
  done : {s : Scheduler rt} → Steps setup s s
  and_then : {s s' s'' : Scheduler rt} → Step setup s s' → Steps setup s' s'' → Steps setup s s''

module _ {rt : Runtime} (setup : Trigger rt → Bool) where
  register-Indexed :
      (t : Trigger rt) (s : Scheduler rt)
      → Assoc.get t.id s.triggers ≡ none
      → Indexed s
      → Indexed (register setup t s).1
  unfolding register
  register-Indexed t s fresh h = go (setup t)
    where
      go :
          (b : Bool)
          → Indexed {rt = rt}
              (elim b as (λ x. Registration × Scheduler rt) [
                | true ↦ (registered, insert t s)
                | false ↦ (setup_failed, s)
              ]).1
      go true = insert-Indexed t s fresh h
      go false = h

  Steps-Indexed : {s s' : Scheduler rt} → Steps setup s s' → Indexed s → Indexed s'
  Steps-Indexed done h = h
  Steps-Indexed (and_then (registers {s} t fresh) steps) h =
      Steps-Indexed steps (register-Indexed t s fresh h)
  Steps-Indexed (and_then (unregisters {s} plugin) steps) h =
      Steps-Indexed steps (unregister_plugin-Indexed plugin s h)

  lookup_all-found :
      (ids : List String) (plugin : String) (triggers : Assoc (Trigger rt))
      → ((id : String) → contains id ids ≡ true → OwnedBy plugin (Assoc.get id triggers))
      → (ts : List (Trigger rt)) × (lookup_all ids triggers ≡ some ts)
  unfolding lookup_all
  lookup_all-found [] plugin triggers h = ([], refl)
  lookup_all-found (id ∷ ids) plugin triggers h =
      go (Assoc.get id triggers) (h id (ground (arith, eq_iff id id)))
        (lookup_all-found ids plugin triggers λ i k. h i (ground (arith, k)))
    where
      go :
          (o : Option (Trigger rt))
          → OwnedBy plugin o
          → (ts : List (Trigger rt)) × (lookup_all ids triggers ≡ some ts)
          → (ts : List (Trigger rt)) × ((elim o [
            | none ↦ none
            | some t ↦ elim (lookup_all ids triggers) [ none ↦ none | some us ↦ some (t ∷ us) ]
          ])
              ≡ some ts)
      go none owned rest = absurd owned
      go (some t) owned (ts, found) = (t ∷ ts, cc found)

  -- However triggers are registered under new ids and plugins are unregistered, from a scheduler that
  -- is indexed, the list of the triggers of a plugin is found without a KeyError.
  pub triggers_of-Steps :
      {s s' : Scheduler rt}
      → Steps setup s s'
      → Indexed s
      → (plugin : String) → (ts : List (Trigger rt)) × (triggers_of plugin s' ≡ some ts)
  unfolding triggers_of
  triggers_of-Steps {s} {s'} steps h plugin =
      lookup_all-found (ids_of plugin s') plugin s'.triggers (Steps-Indexed steps h plugin)
