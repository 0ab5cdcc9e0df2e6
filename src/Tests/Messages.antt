-- ===== src/Tests/Messages.antt =====
-- The theorems on messages at concrete inputs: a peer bob with an alias and a card, and a listener with
-- one handler.
use agentwire_cue.Prelude.{
  ℕ, ◌+◌, String, ◌≡◌, ◌≢◌, refl, ◌↔◌, ◌⊎◌, Bool, true, false, Option, none, some, [], ◌∷◌, nat_eq,
  if◌then◌else◌,
}
use agentwire_cue.Prelude.Assoc as Assoc
use agentwire_cue.Prelude.Int.{ℤ, pos, ◌-ℤ◌, int_ltb}
use agentwire_cue.Value.{Value, Fields, str, dict, end, field}
use agentwire_cue.Value.Dict
use agentwire_cue.Outcome.{Result, ok}
use agentwire_cue.Statechart.Action.{get_field}
use agentwire_cue.A2a.Retry.{
  SendResult, success, failed, permission_denied, default_policy, execute_with_retry,
}
use agentwire_cue.A2a.Retry.Laws.{
  Sound, max_sends, traced_send, traced_sleep, execute_with_retry-Sound,
}
use agentwire_cue.A2a.Cards.{Net, PeerCardCache, Store, cache_path, tick, get, write_back}
use agentwire_cue.A2a.Cards.Laws.{is_card_file, get-disk, get-write_back}
use agentwire_cue.A2a.Aliases.{Secrets}
use agentwire_cue.A2a.Client.{Web, A2AClient, Wire, status, send_message}
use agentwire_cue.A2a.Client.Laws.{All, IsDue, Allowed, send_message-IsDue}
use agentwire_cue.A2a.Listener.{
  A2AListener, Handler, Inbound, new_listener, register_handler, handle_inbound,
}
use agentwire_cue.A2a.Listener.Jsonrpc.{handle_jsonrpc}
use agentwire_cue.A2a.Listener.Same.{handle_jsonrpc-handle_inbound}
use agentwire_cue.A2a.Listener.Laws.{made, handled, Entitled, handle-Entitled}
use agentwire_cue.Tests.Sample.{small}
use agentwire_cue.Tests.Sandboxes.{fs}

-- A send that fails twice; the state counts the sends.
abbrev third_time : ℕ → Option SendResult × ℕ
third_time n = (if nat_eq n 2 then some success else some failed, n + 1)

abbrev no_sleep : ℤ → ℕ → ℕ
no_sleep d n = n

two_is_not_zero : default_policy.max_retries ≢ pos 0
two_is_not_zero e = cc

execute_with_retry-Sound_example :
    Sound third_time no_sleep default_policy (max_sends third_time no_sleep default_policy) (
      execute_with_retry
        (traced_send third_time no_sleep)
        (traced_sleep third_time no_sleep)
        default_policy
        ([], 0))
execute_with_retry-Sound_example =
    execute_with_retry-Sound third_time no_sleep default_policy 0 two_is_not_zero

abbrev card : Value small
card =
    dict (field "endpoints" (dict (field "inbound" (str "http://bob:18801/a2a/inbound") end)) end)

abbrev net : Net small
net = record {
  fs = fs;
  time = λ n. n + 1000;
  fetch = λ url n. ok card;
  loads = λ s. none;
  dumps = λ v. some "card";
  can_read = λ path. true;
  can_write = λ path. true;
  can_unlink = λ path. true;
}

abbrev cache : PeerCardCache
cache = record { cache_dir = "/home/u/.local/share/agentwire-cue/peers"; ttl_ms = pos 600000 }

abbrev fresh : Store small
fresh = record { memory = []; disk = []; reads = 0; requests = 0 }

passwords_are_no_card : is_card_file net cache "bob" "/etc/passwd" ≡ false
unfolding cache_path
passwords_are_no_card = refl

get-disk_example :
    Assoc.get "/etc/passwd" (get net cache "bob" "http://bob" fresh).1.disk
    ≡ Assoc.get "/etc/passwd" fresh.disk
get-disk_example = get-disk net cache "bob" "/etc/passwd" passwords_are_no_card "http://bob" fresh

young : int_ltb (pos (net.time 1) -ℤ pos (net.time 0)) cache.ttl_ms ≡ true
unfolding ◌-ℤ◌
young = refl

get-write_back_example :
    get net cache "bob" "http://bob" (write_back net cache "bob" card fresh).1
    ≡ (ok card, tick (write_back net cache "bob" card fresh).1)
get-write_back_example = get-write_back net cache "bob" "http://bob" card fresh young

abbrev pub secrets : Secrets small
secrets = record { read_file = λ v. ok none; getenv = λ v. ok (some "t0"); is_space = λ c. false }

abbrev web : Web small
web = record {
  net = net;
  secrets = secrets;
  post = λ r n. if nat_eq n 1 then status 200 else status 500;
}

abbrev client : A2AClient small
client = record {
  a2a_url = "http://me:18800";
  a2a_token = some "t1";
  peer_cache = some cache;
  retry_policy = default_policy;
  aliases = ("bob", field "url" (str "http://bob:18801") (field "token" (str "t2") end)) ∷ [];
}

abbrev wire : Wire small
wire = record { store = fresh; posted = []; sleeps = [] }

abbrev hello : Fields small
hello = field "text" (str "hello") end

send_message-IsDue_example :
    All
      (λ r. Allowed web client (some (ok true)) × IsDue web client "bob" hello Value.none wire r)
      (send_message web client "bob" hello (some (ok true)) Value.none wire).1.posted
    × (((send_message web client "bob" hello (some (ok true)) Value.none wire).0
          ≡ some permission_denied)
        ↔ (◌≡◌ {A = Option (Result small Bool)} (some (ok true)) (some (ok false))))
send_message-IsDue_example =
    send_message-IsDue web client "bob" hello (some (ok true)) Value.none wire refl

-- The handler counts the messages.
abbrev counter : Handler small ℕ
counter = record { matches = none; call = λ message n. (none, n + 1) }

abbrev listener : A2AListener small ℕ
listener = register_handler counter (new_listener "0.0.0.0" (some "t1"))

abbrev body : Value small
body = dict (field "method" (str "SendMessage") (field "id" (str "1") end))

abbrev request : Inbound small
request = record { authorization = "Bearer t1"; json = ok body }

abbrev show : Value small → String
show v = "?"

handle-Entitled_example :
    (((handle_inbound listener request 0).1 ≡ 0) × ((handle_jsonrpc show listener request 0).1 ≡ 0))
    ⊎ Entitled listener "0.0.0.0" (some "t1") "Bearer t1"
handle-Entitled_example =
    handle-Entitled listener "0.0.0.0" (some "t1") (handled counter made) show request 0

is_send : get_field body "method" (str "") ≡ ok (str "SendMessage")
unfolding get_field Dict.get
is_send = refl

handle_jsonrpc-handle_inbound_example :
    (handle_jsonrpc show listener request 0).1 ≡ (handle_inbound listener request 0).1
handle_jsonrpc-handle_inbound_example =
    handle_jsonrpc-handle_inbound listener show request body 0 refl is_send
