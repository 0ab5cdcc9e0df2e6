-- ===== src/Permission/Timers.antt =====
-- The slots for timers of core/permission.py.
pub mod Laws
use agentwire_cue.Prelude.{
  ℕ, zero, suc, ◌+◌, ◌-◌, String, Bool, true, false, Option, none, some, if◌then◌else◌,
}
use agentwire_cue.Prelude.Assoc as Assoc
use agentwire_cue.Prelude.Int.{ℤ, pos, int_leb}
use agentwire_cue.Value.{Runtime}
use agentwire_cue.Permission.Enforcer.{Enforcer}

module _ {rt : Runtime} where
  -- `none` is the KeyError of a plugin that is not registered, or was registered only half.
  unfoldable pub acquire_timer_slot : String → Enforcer rt → Option Bool × Enforcer rt
  acquire_timer_slot plugin e = elim (Assoc.get plugin e.active_timers) [
    | none ↦ (none, e)
    | some active ↦ elim (Assoc.get plugin e.timer_max) [
      | none ↦ (none, e)
      | some max ↦ if int_leb max (pos active) then (some false, e) else (
        some true,
        record e { active_timers = Assoc.set plugin (suc active) e.active_timers },
      )
    ]
  ]

  unfoldable pub release_timer_slot : String → Enforcer rt → Enforcer rt
  release_timer_slot plugin e = elim (Assoc.get plugin e.active_timers) [
    | none ↦ e
    | some zero ↦ e
    | some (suc active) ↦ record e { active_timers = Assoc.set plugin active e.active_timers }
  ]
