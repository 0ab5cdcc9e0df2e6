-- ===== src/Triggers/Scheduler.antt =====
-- `TriggerScheduler` of core/trigger.py.
pub mod Laws
use agentwire_cue.Prelude.{String, Bool, true, false, Option, none, some, List, [], ◌∷◌, ◌++◌, map}
use agentwire_cue.Prelude.Assoc as Assoc
use agentwire_cue.Prelude.Assoc.{Assoc}
use agentwire_cue.Value.{Runtime, Fields}

-- The fields of a Trigger; `plugin` is the name of its plugin.
pub record Trigger (rt : Runtime) : Type 0 where
  pub id : String
  pub type : String
  pub config : Fields rt
  pub plugin : String

pub record Scheduler (rt : Runtime) : Type 0 where
  pub triggers : Assoc (Trigger rt)
  pub by_plugin : Assoc (List String)

-- `register` returns or raises TriggerSetupError, as every exception of `setup` becomes one.
pub data Registration : Type 0 where
  registered setup_failed : Registration

module _ {rt : Runtime} where
  -- self._by_plugin.get(plugin_name, [])
  unfoldable pub ids_of : String → Scheduler rt → List String
  ids_of plugin s = elim (Assoc.get plugin s.by_plugin) [ none ↦ [] | some ids ↦ ids ]

  -- The two assignments of `register`, after `setup`.
  unfoldable pub insert : Trigger rt → Scheduler rt → Scheduler rt
  unfolding ids_of
  insert t s = record {
    triggers = Assoc.set t.id t s.triggers;
    by_plugin = Assoc.set t.plugin (ids_of t.plugin s ++ t.id ∷ []) s.by_plugin;
  }

  -- `setup` tells whether the trigger's own setup returns.
  unfoldable pub register :
      (Trigger rt → Bool) → Trigger rt → Scheduler rt → Registration × Scheduler rt
  unfolding insert
  register setup t s = elim (setup t) [
    | true ↦ (registered, insert t s)
    | false ↦ (setup_failed, s)
  ]

  -- The loop of `unregister_plugin`: the triggers that are torn down, in order, and those that stay.
  unfoldable pub tear_down :
      List String → Assoc (Trigger rt) → List (Trigger rt) × Assoc (Trigger rt)
  tear_down [] triggers = ([], triggers)
  tear_down (id ∷ ids) triggers =
      let (torn, left) = tear_down ids (Assoc.remove id triggers) in
      elim (Assoc.get id triggers) [ none ↦ (torn, left) | some t ↦ (t ∷ torn, left) ]

  unfoldable pub unregister_plugin : String → Scheduler rt → List (Trigger rt) × Scheduler rt
  unfolding ids_of tear_down
  unregister_plugin plugin s =
      let (torn, left) = tear_down (ids_of plugin s) s.triggers in
      (torn, record { triggers = left; by_plugin = Assoc.remove plugin s.by_plugin })

  unfoldable pub get : String → Scheduler rt → Option (Trigger rt)
  get id s = Assoc.get id s.triggers

  -- [self._triggers[tid] for tid in ids]; `none` is a KeyError
  unfoldable pub lookup_all : List String → Assoc (Trigger rt) → Option (List (Trigger rt))
  lookup_all [] triggers = some []
  lookup_all (id ∷ ids) triggers =
      let rest = lookup_all ids triggers in
      elim (Assoc.get id triggers) [
        | none ↦ none
        | some t ↦ elim rest [ none ↦ none | some ts ↦ some (t ∷ ts) ]
      ]

  unfoldable pub triggers_of : String → Scheduler rt → Option (List (Trigger rt))
  unfolding ids_of lookup_all
  triggers_of plugin s = lookup_all (ids_of plugin s) s.triggers

  -- `shutdown`, over the names of the plugins
  unfoldable pub shutdown_plugins : List String → Scheduler rt → Scheduler rt
  unfolding unregister_plugin
  shutdown_plugins [] s = s
  shutdown_plugins (plugin ∷ plugins) s = shutdown_plugins plugins (unregister_plugin plugin s).1

  unfoldable pub shutdown : Scheduler rt → Scheduler rt
  unfolding shutdown_plugins
  shutdown s = shutdown_plugins (map (λ entry. entry.0) s.by_plugin) s
