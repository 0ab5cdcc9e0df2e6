-- ===== src/Triggers/Cron.antt =====
-- `CronTrigger` of core/trigger_impl.py, from its first firing time on.
use Prim.Native.Nat.{min, max}
use agentwire_cue.Prelude.{ℕ, String, Option, none, some, leb, ◌-◌, if◌then◌else◌}
use agentwire_cue.Value.{Runtime, str, end, field}
use agentwire_cue.Statechart.Model.{Event, Chart, Host}
use agentwire_cue.Statechart.Tracked.{Plugin, run_tracked_transition}

pub record CronTrigger : Type 0 where
  pub id : String
  pub expression : String
  pub next_fire_ms : ℕ

-- What one round of `_loop` comes to: the sleep until the next, or the end of the task, as
-- `_compute_next` raised.
pub data Round : Type 0 where
  sleeps : ℕ → Round
  ends : Round

-- min(60_000, max(100, next_fire_ms - now_ms))
unfoldable pub sleep_ms : ℕ → ℕ → ℕ
sleep_ms next now = min 60000 (max 100 (next - now))

module _ {rt : Runtime} (host : Host rt) (chart : Chart rt) where
  abbrev pub cron_event : CronTrigger → Event rt
  cron_event t = record {
    type = "CRON_FIRED";
    payload = field "trigger_id" (str t.id) (field "expression" (str t.expression) end);
    message_id = none;
    source_peer = none;
  }

  -- `_fire`: what the transition raises is logged.
  unfoldable pub fire : CronTrigger → Plugin rt → Plugin rt
  unfolding run_tracked_transition
  fire t p = (run_tracked_transition host chart (cron_event t) p).1

  -- One round of `_loop` that is not cancelled: `before` and `after` are its two readings of the clock,
  -- `next` what `_compute_next` returns.
  unfoldable pub loop_round :
      ℕ → ℕ → Option ℕ → CronTrigger → Plugin rt → Round × CronTrigger × Plugin rt
  unfolding fire sleep_ms
  loop_round before after next t p =
      let fired : Round × CronTrigger × Plugin rt = elim next [
        | none ↦ (ends, t, fire t p)
        | some n ↦ (sleeps (sleep_ms n after), record t { next_fire_ms = n }, fire t p)
      ] in
      if leb t.next_fire_ms before then fired else (sleeps (sleep_ms t.next_fire_ms after), t, p)
