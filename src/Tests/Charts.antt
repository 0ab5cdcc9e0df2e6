-- ===== src/Tests/Charts.antt =====
-- The theorems on the state machine at concrete inputs: a lamp that goes on and off.
use agentwire_cue.Prelude.{◌+◌, String, ◌≡◌, refl, true, false, none, some, [], ◌∷◌}
use agentwire_cue.Prelude.Int.{pos}
use agentwire_cue.Value.{Value, Fields, int, str, dict, end, field}
use agentwire_cue.Value.Dict
use agentwire_cue.Outcome.{Result}
use agentwire_cue.Statechart.Action.{index}
use agentwire_cue.Statechart.Model.{Event, Chart, Engine, Host}
use agentwire_cue.Statechart.Persist.{payload, is_sensitive, restore_from_persist}
use agentwire_cue.Statechart.Persist.Laws.{
  JsonRoundTrip, IsWritten, restored, payload_context, restore-persist,
}
use agentwire_cue.Statechart.Transition.{transition, handle_events}
use agentwire_cue.Statechart.Transition.States.{
  Ends, IsDeclared, transition-Ends, handle_events-IsDeclared,
}
use agentwire_cue.Statechart.Transition.Guards.{handle_events-undeclared}
use agentwire_cue.Tests.Json
use agentwire_cue.Tests.Sample.{small, no_objects, ascii}

abbrev pub host : Host small
host = record {
  py = no_objects;
  lex = ascii;
  time = λ n. n + 9;
  peers = Value.none;
  history = Value.none;
  reply = λ id text. none;
  send = λ peer text call. none;
  log_call = λ level. none;
  handlers = λ name. none;
  error_text = λ e. "error";
  dumps = Json.dumps;
  loads = Json.loads;
  can_write = λ path. true;
}

json : JsonRoundTrip host
json = record { loads-dumps = Json.loads-dumps }

-- A transition to `target`, under a guard.
abbrev pub to : String → String → Fields small
to target guard = field "target" (str target) (field "guard" (str guard) end)

abbrev pub transition_to : String → String → Value small
transition_to target guard =
    dict (field "on" (dict (field "toggle" (dict (to target guard)) end)) end)

abbrev pub lamp : Chart small
lamp = record {
  name = "lamp";
  version = "1";
  meta = end;
  states =
      field "idle" (transition_to "lit" "context.visits < 5")
        (field "lit" (transition_to "idle" "") end);
  persist_path = some "state.json";
  persist_exclude = "draft" ∷ [];
  from_fallback = false;
}

abbrev pub start : Engine small
start = record {
  current_state = str "idle";
  state_entered_at_ms = pos 5;
  run = record {
    context =
        field "visits" (int (pos 1)) (field "draft" (str "x") (field "api_token" (str "t") end));
    reads = 0;
    effects = [];
  };
}

abbrev pub toggle : Event small
toggle = record { type = "toggle"; payload = end; message_id = none; source_peer = none }

transition-Ends_example :
    Ends host lamp start (transition host lamp toggle start).0 (transition host lamp toggle start).1
transition-Ends_example = transition-Ends host lamp toggle start

idle_declared : Dict.get "idle" lamp.states ≡ some (transition_to "lit" "context.visits < 5")
unfolding Dict.get
idle_declared = refl

handle_events-IsDeclared_example :
    IsDeclared lamp (handle_events host lamp (toggle ∷ toggle ∷ []) start)
handle_events-IsDeclared_example =
    handle_events-IsDeclared host lamp (toggle ∷ toggle ∷ []) start idle
  where
    idle : IsDeclared lamp start
    idle = ("idle", transition_to "lit" "context.visits < 5", refl, idle_declared)

payload_context_example :
    (stored : Fields small) × (index (payload host lamp start) "context" ≡ Result.ok (dict stored))
    × ((k : String) → IsWritten host lamp start.context k (Dict.get k stored))
payload_context_example = payload_context host lamp start

-- The same lamp in no state of the chart, as a file that was edited can leave it.
abbrev lost : Engine small
lost = record start { current_state = str "broken" }

document_written : host.dumps (payload host lamp start) ≡ some Json.text
unfolding payload is_sensitive
document_written = refl

restore-persist_example :
    restore_from_persist host lamp false (some Json.text) lost
    ≡ (Result.ok true, restored host lamp start lost)
restore-persist_example =
    restore-persist host lamp json start lost "state.json" Json.text false refl document_written

no_broken : Dict.get "broken" lamp.states ≡ none
unfolding Dict.get
no_broken = refl

handle_events-undeclared_example : handle_events host lamp (toggle ∷ toggle ∷ []) lost ≡ lost
handle_events-undeclared_example =
    handle_events-undeclared host lamp "broken" no_broken (toggle ∷ toggle ∷ []) lost refl
