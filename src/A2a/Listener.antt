-- ===== src/A2a/Listener.antt =====
-- `A2AListener` of core/a2a_client.py. `W` is what the handlers change.
pub mod Jsonrpc
pub mod Same
pub mod Laws
use Prim.Native.String.{◌++◌}
use mathlib.Core.List as Lists
use agentwire_cue.Prelude.{
  ℕ, zero, suc, String, Char, code, Bool, true, false, Option, none, some, List, [], ◌∷◌, ◌&&◌,
  ◌||◌, ◌==◌, ltb, length, if◌then◌else◌,
}
use agentwire_cue.Prelude.Int.{pos, negsuc}
use agentwire_cue.Value.{
  Runtime, Value, Values, Fields, bool, int, str, list, dict, nil, cons, end, field,
}
use agentwire_cue.Outcome.{Exn, Result, ok, err, type_error, ◌>>=◌}
use agentwire_cue.Statechart.Action.{get_field}
use agentwire_cue.Statechart.Persist.{is_prefix}
use agentwire_cue.A2a.Responses.{
  Response, refusal, reply, error_object, accepted, working, message_of, get_task, no_tasks,
}

-- A registered handler: the `matches` of its object, if it is a bound method, and its call, which raises or not.
pub record Handler (rt : Runtime) (W : Type 0) : Type 0 where
  pub matches : Option (Value rt → Result rt Bool)
  pub call : Value rt → W → Option (Exn rt) × W

pub record A2AListener (rt : Runtime) (W : Type 0) : Type 0 where
  pub host : String
  pub auth_token : Option String
  pub reject_new : Bool
  pub allow_inbound_without_token : Bool
  pub inbound_handlers : List (Handler rt W)
  -- the name and the version of each plugin
  pub plugins_info : List (String × String)

-- A request: the header Authorization or "", and what `request.json()` comes to.
pub record Inbound (rt : Runtime) : Type 0 where
  pub authorization : String
  pub json : Result rt (Value rt)

-- host in ('127.0.0.1', '::1', 'localhost') or host.startswith('127.')
unfoldable pub is_loopback : String → Bool
unfolding is_prefix
is_loopback host =
    host == "127.0.0.1" || host == "::1" || host == "localhost" || is_prefix "127." host

-- s[n:]
unfoldable pub drop : ℕ → String → String
drop zero s = s
drop (suc n) String.[] = String.[]
drop (suc n) (String.◌∷◌ c s) = drop n s

unfoldable pub is_ascii : String → Bool
is_ascii String.[] = true
is_ascii (String.◌∷◌ c s) = ltb (code c) 128 && is_ascii s

-- hmac.compare_digest(a, b), of two texts
unfoldable pub compare_digest : {rt : Runtime} → String → String → Result rt Bool
unfolding is_ascii
compare_digest a b = if is_ascii a && is_ascii b then ok (a == b) else err type_error

module _ {rt : Runtime} where
  -- What a request is refused with before its body is read, if it is refused: `unauthorized`, from
  -- what the comparison of its token comes to.
  unfoldable pub unless_same : Result rt Bool → Result rt (Option (Response rt))
  unless_same (err e) = err e
  unless_same (ok true) = ok none
  unless_same (ok false) = ok (some (refusal 401 "unauthorized"))

  unfoldable pub check_token : String → String → Result rt (Option (Response rt))
  unfolding is_prefix compare_digest drop unless_same
  check_token token auth =
      if is_prefix "Bearer " auth
      then unless_same (compare_digest (drop 7 auth) token)
      else ok (some (refusal 401 "unauthorized"))

module _ {rt : Runtime} {W : Type 0} where
  unfoldable pub new_listener : String → Option String → A2AListener rt W
  unfolding is_loopback
  new_listener host auth_token = record {
    host = host;
    auth_token = auth_token;
    reject_new = false;
    allow_inbound_without_token = is_loopback host;
    inbound_handlers = [];
    plugins_info = [];
  }

  unfoldable pub register_handler : Handler rt W → A2AListener rt W → A2AListener rt W
  register_handler handler l = record l {
    inbound_handlers = Lists.◌++◌ l.inbound_handlers (handler ∷ []);
  }

  unfoldable pub set_plugins_info : List (String × String) → A2AListener rt W → A2AListener rt W
  set_plugins_info plugins l = record l { plugins_info = plugins }

  -- `self.a2a_listener.reject_new = True` of the shutdown in core/host.py
  unfoldable pub drain : A2AListener rt W → A2AListener rt W
  drain l = record l { reject_new = true }

  abbrev pub bound_without_token : A2AListener rt W → Response rt
  bound_without_token l = record {
    status = 403;
    body = dict (
        field "error" (str "bound_without_token") (
          field "detail" (str ("listener binds " ++ l.host ++ " but no auth_token is configured"))
            end));
  }

  -- No token, or an empty one, is asked of a listener on a loopback address only.
  unfoldable pub without_token : A2AListener rt W → Result rt (Option (Response rt))
  without_token l =
      ok (if l.allow_inbound_without_token then none else some (bound_without_token l))

  unfoldable pub authorize :
      A2AListener rt W → Option String → String → Result rt (Option (Response rt))
  unfolding check_token without_token
  authorize l none auth = without_token l
  authorize l (some token) auth = if token == "" then without_token l else check_token token auth

  unfoldable pub refuse : A2AListener rt W → String → Result rt (Option (Response rt))
  unfolding authorize
  refuse l auth =
      if l.reject_new then ok (some (refusal 503 "draining")) else authorize l l.auth_token auth

  -- One handler; whether it counts as a match. What it raises is logged.
  unfoldable pub run_handler : Handler rt W → Value rt → W → Bool × W
  run_handler handler message w =
      let (raised, w') = handler.call message w in
      let called : Bool × W = (elim raised [ none ↦ true | some _ ↦ false ], w') in
      elim handler.matches [
        | none ↦ called
        | some matches ↦ elim (matches message) [
          | ok b ↦ if b then called else (false, w)
          | err e ↦ (false, w)
        ]
      ]

  -- The loop over the handlers: whether any matched.
  unfoldable pub run_handlers : List (Handler rt W) → Value rt → W → Bool × W
  unfolding run_handler
  run_handlers [] message w = (false, w)
  run_handlers (handler ∷ handlers) message w =
      let (matched, w') = run_handler handler message w in
      let (others, w'') = run_handlers handlers message w' in (matched || others, w'')

  -- The loop over the handlers, and the answer.
  unfoldable pub deliver : A2AListener rt W → Value rt → Value rt → W → Result rt (Response rt) × W
  unfolding run_handlers reply
  deliver l id message w =
      let (matched, w') = run_handlers l.inbound_handlers message w in
      (
        ok (
            if matched
            then reply id "result" accepted
            else reply id "error" (error_object 32602 "no plugin matches")),
        w',
      )

  -- The message and the id of a body, delivered.
  unfoldable pub deliver_parts :
      A2AListener rt W
      → Result rt (Value rt)
      → Result rt (Value rt)
      → W
      → Result rt (Response rt) × W
  unfolding deliver
  deliver_parts l (err e) id w = (err e, w)
  deliver_parts l (ok message) (err e) w = (err e, w)
  deliver_parts l (ok message) (ok id) w = deliver l id message w

  unfoldable pub deliver_body : A2AListener rt W → Value rt → W → Result rt (Response rt) × W
  unfolding message_of get_field deliver_parts
  deliver_body l body w = deliver_parts l (message_of body) (get_field body "id" Value.none) w

  -- A request that is not refused goes on with its body.
  unfoldable pub admit_if :
      Result rt (Option (Response rt))
      → Result rt (Value rt)
      → (Value rt → W → Result rt (Response rt) × W)
      → W
      → Result rt (Response rt) × W
  admit_if (err e) json next w = (err e, w)
  admit_if (ok (some response)) json next w = (ok response, w)
  admit_if (ok none) (err e) next w = (err e, w)
  admit_if (ok none) (ok body) next w = next body w

  unfoldable pub handle_inbound : A2AListener rt W → Inbound rt → W → Result rt (Response rt) × W
  unfolding refuse admit_if deliver_body
  handle_inbound l request w =
      admit_if (refuse l request.authorization) request.json (deliver_body l) w
