-- ===== src/A2a/Client.antt =====
-- `A2AClient` of core/a2a_client.py.
pub mod Laws
use Prim.Native.String.{◌++◌}
use agentwire_cue.Prelude.{
  ℕ, ◌+◌, String, Bool, true, false, not, Option, none, some, List, [], ◌∷◌, ◌&&◌, ◌==◌, length,
  nat_eq, if◌then◌else◌,
}
use agentwire_cue.Prelude.Assoc as Assoc
use agentwire_cue.Prelude.Assoc.{Assoc}
use agentwire_cue.Prelude.Int.{ℤ}
use agentwire_cue.Value.{
  Runtime, Value, Fields, str, list, dict, nil, cons, end, field, truthy, is_none,
}
use agentwire_cue.Value.Dict
use agentwire_cue.Outcome.{Result, ok, err, python_error, ◌>>=◌}
use agentwire_cue.Expression.Lexer.{is_char}
use agentwire_cue.Expression.Template.{rstrip}
use agentwire_cue.Statechart.Action.{index, get_field}
use agentwire_cue.Statechart.Persist.{is_prefix, has_infix}
use agentwire_cue.Permission.Checks.{is_in}
use agentwire_cue.A2a.Retry.{
  SendResult, RetryPolicy, success, failed, permission_denied, execute_with_retry,
}
use agentwire_cue.A2a.Cards as Cards
use agentwire_cue.A2a.Cards.{Net, PeerCardCache, Store}
use agentwire_cue.A2a.Aliases.{Secrets, alias_token}

-- What `_do_send` posts: the url, the token of the header if it is not empty, the time in its id, and the message.
pub record Request (rt : Runtime) : Type 0 where
  pub url : String
  pub token : Value rt
  pub id : ℕ
  pub message : Fields rt

-- What a post comes to: a status, an exception of aiohttp or a timeout, or another exception.
pub data Posted : Type 0 where
  status : ℕ → Posted
  network_error other_error : Posted

-- What the client uses and does not implement.
pub record Web (rt : Runtime) : Type 0 where
  pub net : Net rt
  pub secrets : Secrets rt
  -- what the post of a request comes to, after a number of earlier posts
  pub post : Request rt → ℕ → Posted

pub record A2AClient (rt : Runtime) : Type 0 where
  pub a2a_url : String
  pub a2a_token : Option String
  pub peer_cache : Option PeerCardCache
  pub retry_policy : RetryPolicy
  pub aliases : Assoc (Fields rt)

-- What a call changes: the cache with its files and clock, the requests posted so far and the
-- sleeps, the newest first.
pub record Wire (rt : Runtime) : Type 0 where
  pub store : Store rt
  pub posted : List (Request rt)
  pub sleeps : List ℤ

-- The text before the last occurrence of `p`.
unfoldable pub before_last : String → String → Option String
unfolding is_prefix
before_last p String.[] = if p == "" then some "" else none
before_last p (String.◌∷◌ c s) = elim (before_last p s) [
  | some front ↦ some (String.◌∷◌ c front)
  | none ↦ if is_prefix p (String.◌∷◌ c s) then some "" else none
]

-- s.endswith(p)
unfoldable pub is_suffix : String → String → Bool
is_suffix p String.[] = p == ""
is_suffix p (String.◌∷◌ c s) =
    let rest = is_suffix p s in if p == String.◌∷◌ c s then true else rest

-- The url that a message is posted to.
unfoldable pub post_url : String → String
unfolding rstrip is_suffix
post_url peer_url =
    let base = rstrip (is_char b'/') peer_url in
    if is_suffix "/a2a/jsonrpc" base then base else base ++ "/a2a/jsonrpc"

-- The result of one post; `none` is an exception that leaves `_do_send`.
unfoldable pub send_result : Posted → Option SendResult
send_result (status n) = if nat_eq n 200 then some success else some failed
send_result network_error = some failed
send_result other_error = none

module _ {rt : Runtime} where
  -- `__init__`, and `set_aliases`
  unfoldable pub new_client :
      String → Option String → Option PeerCardCache → RetryPolicy → A2AClient rt
  unfolding rstrip
  new_client a2a_url a2a_token peer_cache retry_policy = record {
    a2a_url = rstrip (is_char b'/') a2a_url;
    a2a_token = a2a_token;
    peer_cache = peer_cache;
    retry_policy = retry_policy;
    aliases = [];
  }

  unfoldable pub set_aliases : Assoc (Fields rt) → A2AClient rt → A2AClient rt
  set_aliases aliases client = record client { aliases = aliases }

  -- The url of a peer in its card, without the path of the listener.
  unfoldable pub base_url : Value rt → Result rt (Value rt)
  unfolding has_infix before_last is_in
  base_url (str s) =
      let front : String = elim (before_last "/a2a/inbound" s) [ none ↦ s | some f ↦ f ] in
      ok (str (if has_infix "/a2a/inbound" s then front else s))
  base_url v = is_in "/a2a/inbound" v >>= λ found. if found then err python_error else ok v

  unfoldable pub inbound_url : Value rt → Result rt (Value rt)
  unfolding get_field truthy base_url
  inbound_url card = if is_none card then ok Value.none else (do
    endpoints ← get_field card "endpoints" (dict end)
    inbound ← get_field endpoints "inbound" Value.none
    if truthy inbound then base_url inbound else ok Value.none)

  unfoldable pub resolve_peer_url :
      Web rt → A2AClient rt → String → Store rt → Result rt (Value rt) × Store rt
  unfolding index inbound_url
  resolve_peer_url web client peer_id s =
      let by_card : Result rt (Value rt) × Store rt = elim client.peer_cache [
        | none ↦ (ok Value.none, s)
        | some cache ↦
            let (card, s') = Cards.get web.net cache peer_id client.a2a_url s in
            (card >>= inbound_url, s')
      ] in
      let by_alias : Result rt (Value rt) × Store rt = elim (Assoc.get peer_id client.aliases) [
        | some alias ↦ (index (dict alias) "url", s)
        | none ↦ by_card
      ] in
      if peer_id == "self" then (ok (str client.a2a_url), s) else by_alias

  -- self.a2a_token or ''
  unfoldable pub default_token : A2AClient rt → Value rt
  default_token client = str (elim client.a2a_token [ none ↦ "" | some t ↦ t ])

  unfoldable pub resolve_peer_token : Secrets rt → A2AClient rt → String → Result rt (Value rt)
  unfolding default_token alias_token
  resolve_peer_token secrets client peer_id = elim (Assoc.get peer_id client.aliases) [
    | none ↦ ok (default_token client)
    | some alias ↦ alias_token secrets (default_token client) alias
  ]

  -- The shorthand {text: ...} as a message with parts.
  unfoldable pub normalize : Fields rt → Fields rt
  unfolding Dict.get
  normalize message =
      let shorthand : Fields rt = elim (Dict.get_or "text" Value.none message) [
        | str text ↦ field "role" (Dict.get_or "role" (str "user") message) (
            field "parts"
              (list (cons (dict (field "type" (str "text") (field "text" (str text) end))) nil))
              end)
        | _ ↦ message
      ] in
      elim (Dict.get "parts" message) [ some _ ↦ message | none ↦ shorthand ]

  -- The message with its metadata, if there is any.
  unfoldable pub outbound : Fields rt → Value rt → Fields rt
  unfolding normalize Dict.set
  outbound message metadata =
      if is_none metadata
      then normalize message
      else Dict.set "metadata" metadata (normalize message)

  -- `_do_send`: a url that is no text has no `rstrip`.
  unfoldable pub do_send :
      Web rt → Value rt → Value rt → Fields rt → Wire rt → Option SendResult × Wire rt
  unfolding post_url send_result Cards.tick
  do_send web (str peer_url) token message w =
      let request : Request rt = record {
        url = post_url peer_url;
        token = token;
        id = web.net.time w.store.reads;
        message = message;
      } in
      (
        send_result (web.post request (length w.posted)),
        record w { store = Cards.tick w.store; posted = request ∷ w.posted },
      )
  do_send web v token message w = (none, w)

  unfoldable pub sleep : ℤ → Wire rt → Wire rt
  sleep ms w = record w { sleeps = ms ∷ w.sleeps }

  -- From the url and the token on.
  unfoldable pub send_to :
      Web rt
      → A2AClient rt
      → Fields rt
      → Result rt (Value rt)
      → Result rt (Value rt)
      → Wire rt
      → Option SendResult × Wire rt
  unfolding do_send sleep execute_with_retry
  send_to web client message (err e) token w = (none, w)
  send_to web client message (ok Value.none) token w = (some failed, w)
  send_to web client message (ok url) (err e) w = (none, w)
  send_to web client message (ok url) (ok token) w =
      execute_with_retry (do_send web url token message) sleep client.retry_policy w

  -- After the permission check.
  unfoldable pub send_permitted :
      Web rt → A2AClient rt → String → Fields rt → Value rt → Wire rt → Option SendResult × Wire rt
  unfolding resolve_peer_url resolve_peer_token outbound send_to
  send_permitted web client target_peer message metadata w =
      let (url, s) = resolve_peer_url web client target_peer w.store in
      send_to web client (outbound message metadata) url
        (resolve_peer_token web.secrets client target_peer) (record w { store = s })

  -- `permission_check` is what its call comes to, if there is one.
  unfoldable pub send_message :
      Web rt
      → A2AClient rt
      → String
      → Fields rt
      → Option (Result rt Bool)
      → Value rt
      → Wire rt
      → Option SendResult × Wire rt
  unfolding send_permitted
  send_message web client target_peer message none metadata w =
      send_permitted web client target_peer message metadata w
  send_message web client target_peer message (some (err e)) metadata w = (none, w)
  send_message web client target_peer message (some (ok false)) metadata w =
      (some permission_denied, w)
  send_message web client target_peer message (some (ok true)) metadata w =
      send_permitted web client target_peer message metadata w
