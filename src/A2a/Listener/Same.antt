-- ===== src/A2a/Listener/Same.antt =====
-- `_handle_jsonrpc` does with SendMessage what `_handle_inbound` does.
use mathlib.Core.Path.{subst}
use agentwire_cue.Prelude.{
  String, ◌≡◌, refl, sym, ap, ◌∙◌, Bool, true, false, Option, none, some, ◌==◌, if◌then◌else◌, List,
  [], ◌∷◌, ◌||◌,
}
use agentwire_cue.Value.{Runtime, Value, str, dict}
use agentwire_cue.Value.Dict
use agentwire_cue.Outcome.{Result, ok, err}
use agentwire_cue.Statechart.Action.{get_field}
use agentwire_cue.Statechart.Persist.{is_prefix}
use agentwire_cue.A2a.Responses.{Response, refusal, message_of}
use agentwire_cue.A2a.Listener.{
  Handler, A2AListener, Inbound, drop, compare_digest, unless_same, check_token, without_token,
  authorize, refuse, run_handler, run_handlers, deliver, deliver_parts, deliver_body, admit_if,
  handle_inbound,
}
use agentwire_cue.A2a.Listener.Jsonrpc.{
  reject_unless, check_bearer, check_loopback, check_auth, refuse_rpc, try_handler, try_handlers,
  send_to_handlers, call_method, call_parts, call_body, handle_jsonrpc,
}

reject_unless-same : {rt : Runtime} (r : Result rt Bool) → reject_unless r ≡ unless_same r
unfolding reject_unless unless_same
reject_unless-same (ok true) = refl
reject_unless-same (ok false) = refl
reject_unless-same (err e) = refl

module _ {rt : Runtime} {W : Type 0} where
  try_handler-same :
      (handler : Handler rt W) (message : Value rt) (w : W)
      → try_handler handler message w ≡ run_handler handler message w
  unfolding try_handler run_handler
  try_handler-same handler message w = refl

  try_handlers-same :
      (handlers : List (Handler rt W)) (message : Value rt) (w : W)
      → try_handlers handlers message w ≡ run_handlers handlers message w
  unfolding try_handlers run_handlers
  try_handlers-same [] message w = refl
  try_handlers-same (handler ∷ handlers) message w =
      ap
        (λ (v : Bool × W).
          let others = try_handlers handlers message v.1 in (v.0 || others.0, others.1))
        (try_handler-same handler message w)
      ∙ ap (λ (v : Bool × W). ((run_handler handler message w).0 || v.0, v.1))
          (try_handlers-same handlers message (run_handler handler message w).1)

module _ {rt : Runtime} {W : Type 0} (l : A2AListener rt W) where
  check_bearer-same :
      (token auth : String) → check_bearer {rt = rt} token auth ≡ check_token token auth
  unfolding check_bearer check_token
  check_bearer-same token auth =
      ap
        (λ (r : Result rt (Option (Response rt))).
          if is_prefix "Bearer " auth then r else ok (some (refusal 401 "unauthorized")))
        (reject_unless-same (compare_digest (drop 7 auth) token))

  check_auth-same : (t : Option String) (auth : String) → check_auth l t auth ≡ authorize l t auth
  unfolding check_auth authorize check_loopback without_token
  check_auth-same none auth = refl
  check_auth-same (some token) auth =
      ap (λ (r : Result rt (Option (Response rt))). if token == "" then check_loopback l else r)
        (check_bearer-same token auth)

  pub refuse_rpc-same : (auth : String) → refuse_rpc l auth ≡ refuse l auth
  unfolding refuse_rpc refuse
  refuse_rpc-same auth =
      ap
        (λ (r : Result rt (Option (Response rt))).
          if l.reject_new then ok (some (refusal 503 "draining")) else r)
        (check_auth-same l.auth_token auth)

  send_to_handlers-same :
      (m : Result rt (Value rt)) (id : Value rt) (w : W)
      → (send_to_handlers l m id w).1 ≡ (deliver_parts l m (ok id) w).1
  unfolding send_to_handlers deliver_parts deliver
  send_to_handlers-same (err e) id w = refl
  send_to_handlers-same (ok message) id w =
      ap (λ (v : Bool × W). v.1) (try_handlers-same l.inbound_handlers message w)

  call_body-SendMessage :
      (show : Value rt → String) (body : Value rt) (w : W)
      → get_field body "method" (str "") ≡ ok (str "SendMessage")
      → (call_body show l body w).1 ≡ (deliver_body l body w).1
  unfolding call_body call_parts call_method deliver_body get_field message_of
  call_body-SendMessage show (dict d) w k =
      ap (λ m. (call_parts show l (dict d) m (get_field (dict d) "id" Value.none) w).1) k
      ∙ send_to_handlers-same (message_of (dict d)) (Dict.get_or "id" Value.none d) w
  call_body-SendMessage show v w k = absurd (cc)

  admit_if-same :
      (r : Result rt (Option (Response rt))) (body : Value rt)
      (f g : Value rt → W → Result rt (Response rt) × W) (w : W)
      → (f body w).1 ≡ (g body w).1
      → (admit_if r (ok body) f w).1 ≡ (admit_if r (ok body) g w).1
  unfolding admit_if
  admit_if-same (err e) body f g w h = refl
  admit_if-same (ok (some response)) body f g w h = refl
  admit_if-same (ok none) body f g w h = h

  -- A body whose method is SendMessage does at the JSON-RPC endpoint what it does at the inbound
  -- endpoint, whether it is let in or not.
  pub handle_jsonrpc-handle_inbound :
      (show : Value rt → String) (request : Inbound rt) (body : Value rt) (w : W)
      → request.json ≡ ok body
      → get_field body "method" (str "") ≡ ok (str "SendMessage")
      → (handle_jsonrpc show l request w).1 ≡ (handle_inbound l request w).1
  unfolding handle_jsonrpc handle_inbound
  handle_jsonrpc-handle_inbound show request body w h k =
      let auth = request.authorization in
      ap (λ r. (admit_if r request.json (call_body show l) w).1) (refuse_rpc-same auth)
      ∙ subst
          (λ json.
            (admit_if (refuse l auth) json (call_body show l) w).1
            ≡ (admit_if (refuse l auth) json (deliver_body l) w).1)
          (sym h)
          (admit_if-same (refuse l auth) body (call_body show l) (deliver_body l) w
            (call_body-SendMessage show body w k))
