-- ===== src/A2a/Listener/Jsonrpc.antt =====
-- `_handle_jsonrpc` of core/a2a_client.py, which repeats the tests and the loop of `_handle_inbound`.
use Prim.Native.String.{◌++◌}
use agentwire_cue.Prelude.{
  String, Bool, true, false, Option, none, some, List, [], ◌∷◌, ◌||◌, ◌==◌, if◌then◌else◌,
}
use agentwire_cue.Value.{Runtime, Value, str, dict, end, field}
use agentwire_cue.Outcome.{Result, ok, err, ◌>>=◌}
use agentwire_cue.Statechart.Action.{get_field}
use agentwire_cue.Statechart.Persist.{is_prefix}
use agentwire_cue.A2a.Responses.{
  Response, refusal, reply, error_object, working, get_task, no_tasks,
}
use agentwire_cue.A2a.Listener.{Handler, A2AListener, Inbound, drop, compare_digest, admit_if}

module _ {rt : Runtime} where
  -- The 401 of a header, from what the comparison of its token comes to.
  unfoldable pub reject_unless : Result rt Bool → Result rt (Option (Response rt))
  reject_unless (err e) = err e
  reject_unless (ok true) = ok none
  reject_unless (ok false) = ok (some (refusal 401 "unauthorized"))

  unfoldable pub check_bearer : String → String → Result rt (Option (Response rt))
  unfolding is_prefix compare_digest drop reject_unless
  check_bearer token auth =
      let compared : Result rt (Option (Response rt)) =
        reject_unless (compare_digest (drop 7 auth) token) in
      if is_prefix "Bearer " auth then compared else ok (some (refusal 401 "unauthorized"))

module _ {rt : Runtime} {W : Type 0} where
  unfoldable pub check_loopback : A2AListener rt W → Result rt (Option (Response rt))
  check_loopback l =
      let detail = "listener binds " ++ l.host ++ " but no auth_token is configured" in
      let refused : Response rt = record {
        status = 403;
        body = dict (field "error" (str "bound_without_token") (field "detail" (str detail) end));
      } in
      ok (if l.allow_inbound_without_token then none else some refused)

  unfoldable pub check_auth :
      A2AListener rt W → Option String → String → Result rt (Option (Response rt))
  unfolding check_bearer check_loopback
  check_auth l none auth = check_loopback l
  check_auth l (some token) auth =
      let checked : Result rt (Option (Response rt)) = check_bearer token auth in
      if token == "" then check_loopback l else checked

  unfoldable pub refuse_rpc : A2AListener rt W → String → Result rt (Option (Response rt))
  unfolding check_auth
  refuse_rpc l auth =
      let checked = check_auth l l.auth_token auth in
      if l.reject_new then ok (some (refusal 503 "draining")) else checked

  -- One handler; whether it counts as a match. What it raises is logged.
  unfoldable pub try_handler : Handler rt W → Value rt → W → Bool × W
  try_handler handler message w =
      let (raised, w') = handler.call message w in
      let called : Bool × W = (elim raised [ none ↦ true | some _ ↦ false ], w') in
      elim handler.matches [
        | none ↦ called
        | some matches ↦ elim (matches message) [
          | ok b ↦ if b then called else (false, w)
          | err e ↦ (false, w)
        ]
      ]

  -- The loop over the handlers: whether any matched.
  unfoldable pub try_handlers : List (Handler rt W) → Value rt → W → Bool × W
  unfolding try_handler
  try_handlers [] message w = (false, w)
  try_handlers (handler ∷ handlers) message w =
      let (matched, w') = try_handler handler message w in
      let (others, w'') = try_handlers handlers message w' in (matched || others, w'')

  -- SendMessage, from what its message comes to.
  unfoldable pub send_to_handlers :
      A2AListener rt W → Result rt (Value rt) → Value rt → W → Result rt (Response rt) × W
  unfolding try_handlers reply
  send_to_handlers l (err e) id w = (err e, w)
  send_to_handlers l (ok message) id w =
      let (matched, w') = try_handlers l.inbound_handlers message w in
      (
        ok (
            if matched
            then reply id "result" working
            else reply id "error" (error_object 32602 "no plugin matches")),
        w',
      )

  -- The methods of the JSON-RPC endpoint; `show` is str(v).
  unfoldable pub call_method :
      (Value rt → String)
      → A2AListener rt W
      → Value rt
      → Value rt
      → Value rt
      → W
      → Result rt (Response rt) × W
  unfolding get_field send_to_handlers get_task reply
  call_method show l body id (str method) w =
      let missing : Response rt =
        reply id "error" (error_object 32600 ("Method " ++ method ++ " not found")) in
      let message =
        get_field body "params" (dict end) >>= λ params. get_field params "message" (dict end) in
      let send = send_to_handlers l message id w in
      if method == "SendMessage"
      then send
      else if method == "GetTask"
      then (get_task body id, w)
      else if method == "ListTasks"
      then (ok (reply id "result" no_tasks), w)
      else if method == "CancelTask"
      then (ok (reply id "error" (error_object 32600 "CancelTask not supported by CUE")), w)
      else (ok missing, w)
  call_method show l body id v w =
      (ok (reply id "error" (error_object 32600 ("Method " ++ show v ++ " not found"))), w)

  unfoldable pub call_parts :
      (Value rt → String)
      → A2AListener rt W
      → Value rt
      → Result rt (Value rt)
      → Result rt (Value rt)
      → W
      → Result rt (Response rt) × W
  unfolding call_method
  call_parts show l body (err e) id w = (err e, w)
  call_parts show l body (ok method) (err e) w = (err e, w)
  call_parts show l body (ok method) (ok id) w = call_method show l body id method w

  unfoldable pub call_body :
      (Value rt → String) → A2AListener rt W → Value rt → W → Result rt (Response rt) × W
  unfolding get_field call_parts
  call_body show l body w =
      call_parts show l body (get_field body "method" (str "")) (get_field body "id" Value.none) w

  unfoldable pub handle_jsonrpc :
      (Value rt → String) → A2AListener rt W → Inbound rt → W → Result rt (Response rt) × W
  unfolding refuse_rpc admit_if call_body
  handle_jsonrpc show l request w =
      admit_if (refuse_rpc l request.authorization) request.json (call_body show l) w
