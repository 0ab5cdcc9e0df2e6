-- ===== src/Tests/Schedulers.antt =====
-- The theorems on triggers at concrete inputs: two plugins, each with a trigger.
use agentwire_cue.Prelude.{String, ◌≡◌, refl, Bool, true, none, some, List, []}
use agentwire_cue.Prelude.Assoc as Assoc
use agentwire_cue.Value.{end}
use agentwire_cue.Triggers.Scheduler.{
  Trigger, Scheduler, ids_of, register, unregister_plugin, triggers_of,
}
use agentwire_cue.Triggers.Scheduler.Laws.{
  Indexed, Steps, done, and_then, registers, unregisters, triggers_of-Steps,
}
use agentwire_cue.Tests.Sample.{small}

abbrev trigger : String → String → Trigger small
trigger id plugin = record { id = id; type = "cron"; config = end; plugin = plugin }

abbrev nothing : Scheduler small
nothing = record { triggers = []; by_plugin = [] }

abbrev setup : Trigger small → Bool
setup t = true

abbrev one : Scheduler small
one = (register setup (trigger "t1" "lamp") nothing).1

abbrev two : Scheduler small
two = (register setup (trigger "t2" "fan") one).1

new_t1 : Assoc.get "t1" nothing.triggers ≡ none
unfolding Assoc.get
new_t1 = refl

new_t2 : Assoc.get "t2" one.triggers ≡ none
unfolding Assoc.get Assoc.set register
new_t2 = refl

history : Steps setup nothing (unregister_plugin "lamp" two).1
history =
    and_then (registers (trigger "t1" "lamp") new_t1)
      (and_then (registers (trigger "t2" "fan") new_t2) (and_then (unregisters "lamp") done))

nothing_is_Indexed : Indexed nothing
unfolding Assoc.get ids_of
nothing_is_Indexed plugin id listed = cc

triggers_of-Steps_example :
    (ts : List (Trigger small)) × (triggers_of "fan" (unregister_plugin "lamp" two).1 ≡ some ts)
triggers_of-Steps_example = triggers_of-Steps setup history nothing_is_Indexed "fan"
