-- ===== src/Permission/Timers/Laws.antt =====
-- The number of active timers of a plugin.
use mathlib.Core.Path.{subst}
use agentwire_cue.Prelude.{
  ℕ, zero, suc, String, ◌≡◌, refl, sym, ap, ◌∙◌, eq_refl, Bool, true, false, Option, none, some,
  List, arith, ◌==◌, if◌then◌else◌, eq_iff,
}
use agentwire_cue.Prelude.Assoc as Assoc
use agentwire_cue.Prelude.Assoc.{get-set, get-remove}
use agentwire_cue.Prelude.Int.{ℤ, pos, int_leb, ◌≤ℤ◌}
use agentwire_cue.Value.{Runtime, Value, Fields, int}
use agentwire_cue.Value.Dict
use agentwire_cue.Outcome.{Result, ok, err}
use agentwire_cue.Statechart.Handlers.{int_of}
use agentwire_cue.Permission.Enforcer.{
  Enforcer, Registered, register, register_max, register_extras, unregister, registered,
  already_registered, raised, extras_of, merge, default_timers, effective, given,
}
use agentwire_cue.Permission.Timers.{acquire_timer_slot, release_timer_slot}

-- What a host does with an enforcer.
pub data Step {rt : Runtime} (show : Value rt → String) : Enforcer rt → Enforcer rt → Type 0 where
  registers :
      {e : Enforcer rt} (plugin : String) (permissions : Value rt)
      → Step show e (register show plugin permissions e).1
  unregisters : {e : Enforcer rt} (plugin : String) → Step show e (unregister plugin e)
  acquires : {e : Enforcer rt} (plugin : String) → Step show e (acquire_timer_slot plugin e).1
  releases : {e : Enforcer rt} (plugin : String) → Step show e (release_timer_slot plugin e)

pub data Steps {rt : Runtime} (show : Value rt → String) : Enforcer rt → Enforcer rt → Type 0 where
  done : {e : Enforcer rt} → Steps show e e
  and_then : {e e' e'' : Enforcer rt} → Step show e e' → Steps show e' e'' → Steps show e e''

-- A number of active timers is at most the maximum, or zero.
abbrev pub Within : Option ℕ → Option ℤ → Type 0
Within none max = Unit
Within (some zero) max = Unit
Within (some (suc active)) none = ⊥
Within (some (suc active)) (some max) = pos (suc active) ≤ℤ max

-- No plugin has more active timers than its maximum.
abbrev pub InBounds : {rt : Runtime} → Enforcer rt → Type 0
InBounds e =
    (plugin : String) → Within (Assoc.get plugin e.active_timers) (Assoc.get plugin e.timer_max)

remove-Within :
    (b : Bool) (active : Option ℕ) (max : Option ℤ)
    → Within active max
    → Within (if b then none else active) (if b then none else max)
remove-Within true active max h = tt
remove-Within false active max h = h

-- An entry of the active timers that is replaced.
set-Within :
    (plugin other : String) (n : ℕ) (a : Assoc.Assoc ℕ) (m : Assoc.Assoc ℤ)
    → Within (some n) (Assoc.get plugin m)
    → Within (Assoc.get other a) (Assoc.get other m)
    → Within (Assoc.get other (Assoc.set plugin n a)) (Assoc.get other m)
set-Within plugin other n a m new old = rw (get-set plugin other n a) (go (plugin == other) refl)
  where
    go :
        (b : Bool)
        → (plugin == other) ≡ b
        → Within (if b then some n else Assoc.get other a) (Assoc.get other m)
    go true e = subst (λ k. Within (some n) (Assoc.get k m)) ((eq_iff plugin other).0 e) new
    go false e = old

lower-Within :
    (active : ℕ) (max : Option ℤ) → Within (some (suc active)) max → Within (some active) max
lower-Within zero max h = tt
lower-Within (suc active) none h = elim h [ ]
lower-Within (suc active) (some max) h = omega arith

raise-Within :
    (active : ℕ) (max : Option ℤ) (n : ℤ)
    → max ≡ some n
    → int_leb n (pos active) ≡ false
    → Within (some (suc active)) max
raise-Within active (some m) n e h = ground (arith, e, h)
raise-Within active none n e h = cc

module _ {rt : Runtime} (show : Value rt → String) where
  unregister-InBounds :
      (plugin : String) (e : Enforcer rt) → InBounds e → InBounds (unregister plugin e)
  unfolding unregister
  unregister-InBounds plugin e h other =
      rw (get-remove plugin other e.active_timers, get-remove plugin other e.timer_max)
        (remove-Within (plugin == other) _ _ (h other))

  acquire-InBounds :
      (plugin : String) (e : Enforcer rt) → InBounds e → InBounds (acquire_timer_slot plugin e).1
  unfolding acquire_timer_slot
  acquire-InBounds plugin e h =
      go (Assoc.get plugin e.active_timers) (Assoc.get plugin e.timer_max) refl
    where
      raised_slot : ℕ → Enforcer rt
      raised_slot active = record e {
        active_timers = Assoc.set plugin (suc active) e.active_timers;
      }

      pick :
          (active : ℕ) (max : ℤ) (b : Bool)
          → int_leb max (pos active) ≡ b
          → Assoc.get plugin e.timer_max ≡ some max
          → InBounds
              (if◌then◌else◌ {A = Option Bool × Enforcer rt} b
                (some false, e)
                (some true, raised_slot active)).1
      pick active max true f at = h
      pick active max false f at = λ other.
          set-Within plugin other (suc active) e.active_timers e.timer_max
            (raise-Within active _ max at f) (h other)

      go :
          (a : Option ℕ) (m : Option ℤ)
          → Assoc.get plugin e.timer_max ≡ m
          → InBounds {rt = rt}
              (elim a as (λ x. Option Bool × Enforcer rt) [
                | none ↦ (none, e)
                | some active ↦ elim m as (λ x. Option Bool × Enforcer rt) [
                  | none ↦ (none, e)
                  | some max ↦
                      if◌then◌else◌ {A = Option Bool × Enforcer rt}
                        (int_leb max (pos active))
                        (some false, e)
                        (some true, raised_slot active)
                ]
              ]).1
      go none m at = h
      go (some active) none at = h
      go (some active) (some max) at = pick active max (int_leb max (pos active)) refl at

  release-InBounds :
      (plugin : String) (e : Enforcer rt) → InBounds e → InBounds (release_timer_slot plugin e)
  unfolding release_timer_slot
  release-InBounds plugin e h = go (Assoc.get plugin e.active_timers) refl
    where
      go :
          (a : Option ℕ)
          → Assoc.get plugin e.active_timers ≡ a
          → InBounds {rt = rt} (elim a [
            | none ↦ e
            | some zero ↦ e
            | some (suc active) ↦ record e {
              active_timers = Assoc.set plugin active e.active_timers;
            }
          ])
      go none at = h
      go (some zero) at = h
      go (some (suc active)) at = λ other.
          set-Within plugin other active e.active_timers e.timer_max
            (lower-Within active _
              (subst (λ o. Within o (Assoc.get plugin e.timer_max)) at (h plugin)))
            (h other)

  entered-InBounds :
      (plugin : String) (perms : Fields rt) (e : Enforcer rt)
      → InBounds e
      → InBounds (record e {
        by_plugin = Assoc.set plugin perms e.by_plugin;
        active_timers = Assoc.set plugin 0 e.active_timers;
      })
  entered-InBounds plugin perms e h other =
      set-Within plugin other 0 e.active_timers e.timer_max tt (h other)

  -- A new maximum for a plugin that has no active timer.
  max-InBounds :
      (plugin : String) (n : ℤ) (e : Enforcer rt)
      → Assoc.get plugin e.active_timers ≡ some 0
      → InBounds e
      → InBounds (record e { timer_max = Assoc.set plugin n e.timer_max })
  max-InBounds plugin n e idle h other =
      rw (get-set plugin other n e.timer_max) (go (plugin == other) refl)
    where
      go :
          (b : Bool)
          → (plugin == other) ≡ b
          → Within
              (Assoc.get other e.active_timers)
              (if b then some n else Assoc.get other e.timer_max)
      go true f =
          subst (λ o. Within o (some n))
            (sym idle ∙ ap (λ k. Assoc.get k e.active_timers) ((eq_iff plugin other).0 f)) tt
      go false f = h other

  register_extras-InBounds :
      (plugin : String) (perms : Fields rt) (e : Enforcer rt)
      → InBounds e
      → InBounds (register_extras show plugin perms e).1
  unfolding register_extras
  register_extras-InBounds plugin perms e h = go (extras_of show perms)
    where
      go :
          (o : Result rt (List String))
          → InBounds {rt = rt}
              (elim o as (λ x. Registered rt × Enforcer rt) [
                | err x ↦ (raised x, e)
                | ok extras ↦ (
                  registered,
                  record e { persist_spec_extras = Assoc.set plugin extras e.persist_spec_extras },
                )
              ]).1
      go (err x) = h
      go (ok extras) = h

  register_max-InBounds :
      (plugin : String) (perms : Fields rt) (e : Enforcer rt)
      → Assoc.get plugin e.active_timers ≡ some 0
      → InBounds e
      → InBounds (register_max show plugin perms e).1
  unfolding register_max
  register_max-InBounds plugin perms e idle h =
      go (int_of (Dict.get_or "max_concurrent" (int (pos 1)) (merge "timers" default_timers perms)))
    where
      go :
          (o : Result rt ℤ)
          → InBounds {rt = rt}
              (elim o as (λ x. Registered rt × Enforcer rt) [
                | err x ↦ (raised x, e)
                | ok n ↦
                    register_extras show plugin perms
                      (record e { timer_max = Assoc.set plugin n e.timer_max })
              ]).1
      go (err x) = h
      go (ok n) = register_extras-InBounds plugin perms _ (max-InBounds plugin n e idle h)

  register-InBounds :
      (plugin : String) (permissions : Value rt) (e : Enforcer rt)
      → InBounds e
      → InBounds (register show plugin permissions e).1
  unfolding register
  register-InBounds plugin permissions e h = go (Assoc.get plugin e.by_plugin)
    where
      entered : Enforcer rt
      entered = record e {
        by_plugin = Assoc.set plugin (effective (given permissions)) e.by_plugin;
        active_timers = Assoc.set plugin 0 e.active_timers;
      }

      go :
          (o : Option (Fields rt))
          → InBounds {rt = rt}
              (elim o as (λ x. Registered rt × Enforcer rt) [
                | some _ ↦ (already_registered, e)
                | none ↦ register_max show plugin (given permissions) entered
              ]).1
      go (some d) = h
      go none =
          register_max-InBounds plugin (given permissions) entered
            (get-set plugin plugin 0 e.active_timers
              ∙ ap (λ b. if b then some 0 else Assoc.get plugin e.active_timers) (eq_refl plugin))
            (entered-InBounds plugin (effective (given permissions)) e h)

  Step-InBounds : {e e' : Enforcer rt} → Step show e e' → InBounds e → InBounds e'
  Step-InBounds (registers {e} plugin permissions) h = register-InBounds plugin permissions e h
  Step-InBounds (unregisters {e} plugin) h = unregister-InBounds plugin e h
  Step-InBounds (acquires {e} plugin) h = acquire-InBounds plugin e h
  Step-InBounds (releases {e} plugin) h = release-InBounds plugin e h

  -- Whatever a host registers, unregisters, acquires and releases, in any order and for any plugins,
  -- and even where a registration fails half way, no plugin has more active timers than its maximum.
  pub Steps-InBounds : {e e' : Enforcer rt} → Steps show e e' → InBounds e → InBounds e'
  Steps-InBounds done h = h
  Steps-InBounds (and_then step steps) h = Steps-InBounds steps (Step-InBounds step h)
