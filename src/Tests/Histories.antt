-- ===== src/Tests/Histories.antt =====
-- The theorems on the history client at concrete inputs: a gateway with one page of tasks, and one
-- whose every page names a next one.
use mathlib.Core.Path.{subst}
use agentwire_cue.Prelude.{◌≡◌, ◌≢◌, refl, true, false, some, arith, []}
use agentwire_cue.Prelude.Int.{pos, ◌-ℤ◌}
use agentwire_cue.Value.{Value, int, str, dict, list, nil, end, field, truthy}
use agentwire_cue.Value.Dict
use agentwire_cue.Outcome.{ok, ok-injective}
use agentwire_cue.History.Cache.{
  Key, Gateway, HistoryClient, messages, number, text, same_key, is_stale, rpc, set_cached,
}
use agentwire_cue.History.Client.{resolve_alias, messages_key, list_messages}
use agentwire_cue.History.Client.Laws.{
  Looks, after_read, fetch, list_messages-Looks, list_messages-again,
}
use agentwire_cue.History.Peers.{read_page, out_of_fuel, list_tasks}
use agentwire_cue.History.Peers.Laws.{IsLast, IsEndless, list_tasks-ends, list_tasks-endless}
use agentwire_cue.Tests.Sample.{small}
use agentwire_cue.Tests.Messages.{secrets}

-- A gateway with one answer, whose clock moves by a second.
abbrev answering : Value small → Gateway small
answering answer = record {
  secrets = secrets;
  time = λ n. pos n;
  call = λ method params token n. ok (dict (field "result" answer end));
  parse_hex = λ s. some (pos 1);
}

abbrev last_page : Value small
last_page = dict (field "tasks" (list nil) (field "messages" (list nil) end))

abbrev next_page : Value small
next_page = dict (field "tasks" (list nil) (field "nextPageToken" (str "p") end))

abbrev client : HistoryClient small
client = record { token = str "t1"; ttl = pos 30; cache = []; aliases = []; reads = 0; calls = 0 }

abbrev key : Key small
key = messages (text "bob") (number (pos 5)) (number (pos 0))

bob_is_bob : resolve_alias "bob" client.aliases ≡ ok (str "bob")
unfolding resolve_alias
bob_is_bob = refl

key_of_bob : messages_key (answering last_page) (str "bob") (int (pos 5)) (int (pos 0)) ≡ ok key
unfolding messages_key
key_of_bob = refl

list_messages-Looks_example :
    Looks
      (answering last_page)
      key
      (fetch (answering last_page) "bob" (int (pos 5)) (int (pos 0)) (str "bob") key)
      client
      (list_messages (answering last_page) "bob" (int (pos 5)) (int (pos 0)) client)
list_messages-Looks_example =
    list_messages-Looks (answering last_page) "bob" (int (pos 5)) (int (pos 0)) (str "bob") key
      client bob_is_bob key_of_bob

same : same_key key key ≡ true
unfolding same_key
same = refl

young : is_stale client (pos 1) (pos 0) ≡ false
unfolding is_stale ◌-ℤ◌
young = refl

list_messages-again_example :
    list_messages
      (answering last_page)
      "bob"
      (int (pos 5))
      (int (pos 0))
      (set_cached (answering last_page) key (list nil) client)
    ≡ (ok (list nil), after_read (set_cached (answering last_page) key (list nil) client))
list_messages-again_example =
    list_messages-again (answering last_page) "bob" (int (pos 5)) (int (pos 0)) (str "bob") key
      (list nil) client bob_is_bob key_of_bob same refl young

ends_at_once : IsLast (answering last_page) (str "t1") 0
unfolding read_page rpc truthy Dict.get
ends_at_once page_token rows c h e v k = subst (λ u. truthy u ≡ false) (ok-injective k) refl

list_tasks-ends_example : (list_tasks (answering last_page) 1 (str "") [] client).0 ≢ out_of_fuel
list_tasks-ends_example =
    list_tasks-ends (answering last_page) 0 1 (str "") [] client ends_at_once (omega arith)

no_last : IsEndless (answering next_page) []
unfolding truthy read_page rpc Dict.get
no_last page_token c = (str "p", refl, refl)

list_tasks-endless_example :
    (list_tasks (answering next_page) 99 (str "") [] client).0 ≡ out_of_fuel
list_tasks-endless_example =
    list_tasks-endless (answering next_page) [] no_last refl 99 (str "") client
