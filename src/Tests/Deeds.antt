-- ===== src/Tests/Deeds.antt =====
-- The theorems on triggers, actions and requirements at concrete inputs.
use agentwire_cue.Prelude.{
  map, Bool, String, ◌≡◌, refl, true, false, none, some, [], ◌∷◌, ◌&&◌, if◌then◌else◌,
}
use agentwire_cue.Prelude.Assoc.{Assoc}
use agentwire_cue.Prelude.Int.{pos}
use agentwire_cue.Value.{Value, str, dict, list, nil, cons, end, field}
use agentwire_cue.Value.Dict
use agentwire_cue.Outcome.{ok}
use agentwire_cue.Statechart.Tracked.{Plugin}
use agentwire_cue.History.Peers.{Row}
use agentwire_cue.Triggers.Content.{
  ContentMatchTrigger, extract_message_text, passes_peer, matches, fire, on_message,
}
use agentwire_cue.Triggers.Content.Laws.{on_message-matches}
use agentwire_cue.Triggers.Polling.{HistoryChangeTrigger, poll}
use agentwire_cue.Triggers.Polling.Laws.{IsBelow, poll-again}
use agentwire_cue.Actions.{System, Installed, World, write_file, spawn_subprocess, http_request}
use agentwire_cue.Actions.Laws.{Adds, actions-IsPermitted}
use agentwire_cue.Host as Hosts
use agentwire_cue.Host.Laws.{check_requires-degraded}
use agentwire_cue.Tests.Sample.{small}
use agentwire_cue.Tests.Sandboxes.{fs}
use agentwire_cue.Tests.Permissions.{urls, writer}
use agentwire_cue.Tests.Charts.{host, lamp, start, toggle}
use agentwire_cue.Statechart.Model.{EvalEnv}

abbrev plugin : Plugin small
plugin = record {
  engine = start;
  last_trigger_at = none;
  last_match = false;
  last_reason = none;
  last_details = none;
  invalidations = 0;
}

abbrev alert : ContentMatchTrigger
alert = record { contains = "fire" ∷ "smoke" ∷ []; min_match = pos 1; peer_filter = some "bob" }

abbrev message : Value small
message = dict (field "peer" (str "bob") (field "parts" (list (cons (str "a fire") nil)) end))

text_found : extract_message_text message ≡ ok "a fire"
unfolding extract_message_text Dict.get
text_found = refl

from_bob : passes_peer alert message ≡ ok true
unfolding passes_peer Dict.get
from_bob = refl

it_matches : matches alert message ≡ ok true
unfolding matches Dict.get
it_matches = refl

on_message-matches_example :
    on_message host lamp alert message plugin
    ≡ (ok tt, if true && true then fire host lamp alert message "a fire" plugin else plugin)
on_message-matches_example =
    on_message-matches host lamp alert message plugin "a fire" text_found true from_bob true
      it_matches

abbrev watch : HistoryChangeTrigger
watch = record { granularity = "round"; peer = "*" }

abbrev rows : Assoc (Row small)
rows =
    ("bob", record { uuid = str "b0b"; last_round = pos 7 })
    ∷ ("eve", record { uuid = str "e4e"; last_round = pos 2 })
    ∷ []

poll-again_example :
    (poll watch [] rows (poll watch [] rows (("bob", pos 3) ∷ [])).1
      ≡ ([], (poll watch [] rows (("bob", pos 3) ∷ [])).1))
    × IsBelow {rt = small} watch []
        (("bob", pos 3) ∷ [])
        (poll watch [] rows (("bob", pos 3) ∷ [])).1
poll-again_example = poll-again watch [] rows (("bob", pos 3) ∷ [])

abbrev system : System small
system = record {
  fs = fs;
  urls = urls;
  show = λ v. "hello";
  upper = λ s. s;
  getenv = λ name. none;
  is_symlink = λ path. false;
  begins = λ deed. none;
  ends = λ deed. none;
}

abbrev env : EvalEnv small
env = record { event = toggle; current_state = str "idle"; entered_at_ms = pos 5 }

abbrev installed : Installed small
installed = record { enforcer = some writer; secrets = ("lamp", []) ∷ [] }

abbrev world : World small
world = record { run = start.run; deeds = [] }

abbrev write_data : Value small
write_data =
    dict (
      field "with" (dict (field "path" (str "/srv/data/x") (field "content" (str "hello") end)))
        end)

actions-IsPermitted_example :
    Adds system host lamp env installed write_data world
      (write_file system host lamp env installed write_data world).1
    × Adds system host lamp env installed write_data world
        (spawn_subprocess system host lamp env installed write_data world).1
    × Adds system host lamp env installed write_data world
        (http_request system host lamp env installed write_data world).1
actions-IsPermitted_example = actions-IsPermitted system host lamp env installed write_data world

abbrev needs_fan : Hosts.Plugin
needs_fan = record {
  name = "lamp";
  aliases = "bob" ∷ [];
  requires = record { plugins = "fan" ∷ []; peers = "bob" ∷ []; capabilities = [] };
  degraded = false;
  degraded_reason = "";
}

abbrev quoted : String → String
quoted s = s

check_requires-degraded_example :
    map {B = String × Bool}
      (λ p. (p.name, p.degraded))
      (Hosts.check_requires quoted (needs_fan ∷ []))
    ≡ ("lamp", true) ∷ []
unfolding Hosts.loaded_names
check_requires-degraded_example = check_requires-degraded quoted (needs_fan ∷ [])
