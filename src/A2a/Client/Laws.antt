-- ===== src/A2a/Client/Laws.antt =====
-- Which requests a call posts, and when it is denied.
use agentwire_cue.Prelude.{
  String, ◌≡◌, ◌≢◌, refl, sym, ap, ◌∙◌, length, ◌↔◌, ◌⊎◌, inl, inr, Bool, true, false, Option, none,
  some, List, [], ◌∷◌, nat_eq, if_elim,
}
use mathlib.Core.Path.{subst}
use agentwire_cue.Value.{Runtime, Value, Fields, str}
use agentwire_cue.Outcome.{Result, ok, err}
use agentwire_cue.A2a.Retry.{SendResult, permission_denied}
use agentwire_cue.A2a.Retry.Invariant.{execute_with_retry-keeps}
use agentwire_cue.A2a.Client.{
  Request, Posted, Web, A2AClient, Wire, status, network_error, other_error, post_url,
  resolve_peer_url, resolve_peer_token, outbound, send_result, do_send, sleep, send_to,
  send_permitted, send_message,
}

abbrev NotDenied : Option SendResult → Type 0
NotDenied r = r ≢ some permission_denied

send_result-NotDenied : (p : Posted) → NotDenied (send_result p)
unfolding send_result
send_result-NotDenied (status n) = if_elim NotDenied (nat_eq n 200) (λ _. λ e. cc) (λ _. λ e. cc)
send_result-NotDenied network_error = λ e. cc
send_result-NotDenied other_error = λ e. cc

abbrev pub All : {A : Type 0} → (A → Type 0) → List A → Type 0
All P [] = Unit
All P (x ∷ xs) = P x × All P xs

module _ {rt : Runtime} (web : Web rt) (client : A2AClient rt) where
  abbrev Good : (Request rt → Type 0) → Option SendResult × Wire rt → Type 0
  Good P r = NotDenied r.0 × All P r.1.posted

  do_send-Good :
      (message : Fields rt) (url token : Value rt) (P : Request rt → Type 0)
      → ((peer_url : String) (r : Request rt)
          → url ≡ str peer_url
          → r.url ≡ post_url peer_url
          → r.token ≡ token
          → r.message ≡ message
          → P r)
      → (w : Wire rt) → All P w.posted
      → Good P (do_send web url token message w)
  unfolding do_send
  do_send-Good message (str peer_url) token P p w h =
      let request : Request rt = record {
        url = post_url peer_url;
        token = token;
        id = web.net.time w.store.reads;
        message = message;
      } in
      (
        send_result-NotDenied (web.post request (length w.posted)),
        (p peer_url request refl refl refl refl, h),
      )
  do_send-Good message url token P p w h = ((λ e. cc), h)

  send_to-Good :
      (message : Fields rt) (url token : Result rt (Value rt)) (P : Request rt → Type 0)
      (w : Wire rt)
      → ((peer_url : String) (t : Value rt) (r : Request rt)
          → url ≡ ok (str peer_url)
          → token ≡ ok t
          → r.url ≡ post_url peer_url
          → r.token ≡ t
          → r.message ≡ message
          → P r)
      → All P w.posted
      → Good P (send_to web client message url token w)
  unfolding send_to
  send_to-Good message (err e) token P w p h = (λ e. cc, h)
  send_to-Good message (ok Value.none) token P w p h = (λ e. cc, h)
  send_to-Good message (ok url) (err e) P w p h = (λ e. cc, h)
  send_to-Good message (ok url) (ok token) P w p h =
      execute_with_retry-keeps (do_send web url token message) sleep client.retry_policy
        (λ v. All P v.posted) NotDenied
        (do_send-Good message url token P (λ peer_url r e. p peer_url token r (ap ok e) refl))
        (λ d v k. k) (λ e. cc) w h

  -- The request goes where the target resolves to, with the token and the message of the call.
  abbrev pub IsDue : String → Fields rt → Value rt → Wire rt → Request rt → Type 0
  IsDue target message metadata w r =
      ((peer_url : String) × ((resolve_peer_url web client target w.store).0 ≡ ok (str peer_url))
        × (r.url ≡ post_url peer_url))
      × (resolve_peer_token web.secrets client target ≡ ok r.token)
      × (r.message ≡ outbound message metadata)

  send_permitted-Good :
      (target : String) (message : Fields rt) (metadata : Value rt) (w : Wire rt)
      (P : Request rt → Type 0)
      → ((r : Request rt) → IsDue target message metadata w r → P r)
      → w.posted ≡ []
      → Good P (send_permitted web client target message metadata w)
  unfolding send_permitted
  send_permitted-Good target message metadata w P p h =
      let (url, s) = resolve_peer_url web client target w.store in
      send_to-Good (outbound message metadata) url (resolve_peer_token web.secrets client target) P
        (record w { store = s })
        (λ peer_url t r eu et e f g. p r ((peer_url, eu, e), et ∙ ap ok (sym f), g))
        (subst (All P) (sym h) tt)

  abbrev pub Allowed : Option (Result rt Bool) → Type 0
  Allowed check = (check ≡ none) ⊎ (check ≡ some (ok true))

  -- If nothing was posted before, each request that send_message posts was let through by the
  -- permission check, if there is one, goes to the url that the peer resolves to, with the token
  -- of the peer and the normalized message with its metadata. The result is permission_denied
  -- exactly if the check returned False.
  pub send_message-IsDue :
      (target : String) (message : Fields rt) (check : Option (Result rt Bool))
      (metadata : Value rt) (w : Wire rt)
      → w.posted ≡ []
      → All
          (λ r. Allowed check × IsDue target message metadata w r)
          (send_message web client target message check metadata w).1.posted
        × (((send_message web client target message check metadata w).0 ≡ some permission_denied)
            ↔ (check ≡ some (ok false)))
  unfolding send_message
  send_message-IsDue target message none metadata w h =
      let (denied, due) =
        send_permitted-Good target message metadata w
          (λ r. Allowed none × IsDue target message metadata w r) (λ r d. (inl refl, d)) h in
      (due, ((λ e. absurd (denied e)), (λ e. absurd (cc))))
  send_message-IsDue target message (some (ok true)) metadata w h =
      let (denied, due) =
        send_permitted-Good target message metadata w
          (λ r. Allowed (some (ok true)) × IsDue target message metadata w r) (λ r d. (inr refl, d))
          h in
      (due, ((λ e. absurd (denied e)), (λ e. absurd (cc))))
  send_message-IsDue target message (some (ok false)) metadata w h = (
    subst (All λ r. Allowed (some (ok false)) × IsDue target message metadata w r) (sym h) tt,
    ((λ e. refl), (λ e. refl)),
  )
  send_message-IsDue target message (some (err x)) metadata w h = (
    subst (All λ r. Allowed (some (err x)) × IsDue target message metadata w r) (sym h) tt,
    ((λ e. absurd (cc)), (λ e. absurd (cc))),
  )
