-- ===== src/Tests/Permissions.antt =====
-- The theorems on permissions at concrete inputs: a plugin that may write below /srv/data.
use agentwire_cue.Prelude.{String, ◌≡◌, refl, true, none, some, [], ◌∷◌, ◌==◌, if◌then◌else◌}
use agentwire_cue.Prelude.Assoc as Assoc
use agentwire_cue.Prelude.Int.{pos}
use agentwire_cue.Value.{Value, Fields, int, str, list, dict, nil, cons, end, field}
use agentwire_cue.Value.Dict
use agentwire_cue.Outcome.{ok, err, conversion_error}
use agentwire_cue.Statechart.Persist.{keeps_key}
use agentwire_cue.Permission.Enforcer.{
  Urls, Enforcer, raw_socket, filesystem, subprocess, env, peers, allow, deny, register,
}
use agentwire_cue.Permission.Checks.{
  check_filesystem, check_network_http, check_network_raw, check_subprocess, check_env, check_peer,
  filter_sensitive,
}
use agentwire_cue.Permission.Checks.Laws.{
  sandboxed, LowerKeeps, check_filesystem-sandboxed, checks-unregistered, filter_sensitive-persist,
}
use agentwire_cue.Permission.Timers.{acquire_timer_slot}
use agentwire_cue.Permission.Timers.Laws.{
  Steps, InBounds, done, and_then, registers, acquires, Steps-InBounds,
}
use agentwire_cue.Sandbox.Path.{is_under, abs, real}
use agentwire_cue.Sandbox.Check.{check_persist_path}
use agentwire_cue.Tests.Sample.{small, ascii}
use agentwire_cue.Tests.Sandboxes.{fs}
use agentwire_cue.Tests.Charts.{host, lamp}

abbrev empty : Enforcer small
empty = record {
  by_plugin = [];
  active_timers = [];
  timer_max = [];
  persist_spec_extras = [];
  persist_cli_extras = [];
}

abbrev rule : Value small
rule = dict (field "path" (str "/srv/data/*") (field "modes" (list (cons (str "write") nil)) end))

abbrev pub writer : Enforcer small
writer = record empty {
  by_plugin = ("lamp", field "filesystem" (list (cons rule nil)) end) ∷ [];
  persist_spec_extras = ("lamp", "/srv/data" ∷ []) ∷ [];
}

write_allowed :
    check_filesystem fs "lamp" "/srv/data/x" "write" writer ≡ ok (allow filesystem "lamp")
unfolding check_filesystem Dict.get Assoc.get check_persist_path is_under abs real
write_allowed = refl

check_filesystem-sandboxed_example : sandboxed fs "lamp" "/srv/data/x" writer ≡ true
check_filesystem-sandboxed_example =
    check_filesystem-sandboxed fs "lamp" "/srv/data/x" writer (allow filesystem "lamp")
      write_allowed refl

abbrev pub urls : Urls
urls = record {
  urlparse = λ url. if url == "http://[" then none else some ("https", "example.org");
}

nobody : Assoc.get "fan" writer.by_plugin ≡ none
unfolding Assoc.get
nobody = refl

checks-unregistered_example :
    (check_network_http ascii urls "fan" "http://[" writer ≡ err conversion_error)
    × (check_network_raw "fan" writer ≡ ok (deny raw_socket "fan"))
    × (check_filesystem fs "fan" "/srv/data/x" "read" writer ≡ ok (deny filesystem "fan"))
    × (check_subprocess "fan" ("ls" ∷ []) writer ≡ ok (deny subprocess "fan"))
    × (check_env "fan" "HOME" writer ≡ ok (deny env "fan"))
    × (check_peer "fan" "bob" none writer ≡ ok (deny peers "fan"))
checks-unregistered_example =
    checks-unregistered writer "fan" nobody ascii urls fs "http://[" "ls" "/srv/data/x" "read"
      "HOME" "bob" [] none

keeps : LowerKeeps ascii
keeps p listed = refl

abbrev mixed : Fields small
mixed = field "visits" (int (pos 1)) (field "api_token" (str "t") (field "draft" (str "x") end))

filter_sensitive-persist_example :
    filter_sensitive ascii ("draft" ∷ []) mixed ≡ Dict.filter_keys (keeps_key host lamp) mixed
filter_sensitive-persist_example = filter_sensitive-persist host lamp keeps mixed

abbrev show : Value small → String
show v = "?"

abbrev timers : Value small
timers = dict (field "timers" (dict (field "max_concurrent" (int (pos 1)) end)) end)

-- The enforcer after a registration and two tries to get a slot.
abbrev after_two : Enforcer small
after_two =
    (acquire_timer_slot "lamp"
      (acquire_timer_slot "lamp" (register show "lamp" timers empty).1).1).1

two_tries : Steps show empty after_two
two_tries =
    and_then (registers "lamp" timers)
      (and_then (acquires "lamp") (and_then (acquires "lamp") done))

empty_is_bounded : InBounds empty
unfolding Assoc.get
empty_is_bounded plugin = tt

Steps-InBounds_example : InBounds after_two
Steps-InBounds_example = Steps-InBounds show two_tries empty_is_bounded
