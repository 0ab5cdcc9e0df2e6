-- ===== src/A2a/Listener/Laws.antt =====
-- Who gets in, and which handlers run.
use Prim.Native.String.{◌++◌}
use mathlib.Core.Path.{subst}
use text.Mathlib.TextEquality.{Char-path}
use text.Mathlib.TextLemmas.{nil-append, cons-append}
use agentwire_cue.Prelude.{
  ℕ, suc, String, ◌≡◌, refl, sym, ap, ◌∙◌, Bool, true, false, ◌⊎◌, inl, inr, Option, none, some,
  ◌==◌, eq_iff, arith, if_elim, List, ◌||◌,
}
use agentwire_cue.Value.{Runtime, Value}
use agentwire_cue.Outcome.{Result, ok, err}
use agentwire_cue.Statechart.Persist.{is_prefix}
use agentwire_cue.A2a.Responses.{Response}
use agentwire_cue.A2a.Listener.{
  Handler, A2AListener, Inbound, is_loopback, drop, compare_digest, unless_same, check_token,
  new_listener, register_handler, set_plugins_info, drain, without_token, authorize, refuse,
  deliver_body, admit_if, handle_inbound,
}
use agentwire_cue.A2a.Listener.Jsonrpc.{refuse_rpc, call_body, handle_jsonrpc}
use agentwire_cue.A2a.Listener.Same.{refuse_rpc-same}

abbrev size : String → ℕ
size String.[] = 0
size (String.◌∷◌ c s) = suc (size s)

is_prefix-drop : (p s : String) → is_prefix p s ≡ true → s ≡ p ++ drop (size p) s
unfolding is_prefix drop
is_prefix-drop String.[] s h = sym (nil-append s)
is_prefix-drop (String.◌∷◌ c p) String.[] h = absurd (cc)
is_prefix-drop (String.◌∷◌ c p) (String.◌∷◌ d s) h =
    ground (arith, Char-path c d, is_prefix-drop p s, cons-append c p (drop (size p) s))

compare_digest-eq : {rt : Runtime} (a b : String) → compare_digest {rt = rt} a b ≡ ok true → a ≡ b
unfolding compare_digest
compare_digest-eq a b h = ground (arith, eq_iff a b)

equal_text : (a b : String) → (a == b) ≡ true → a ≡ b
equal_text a b h = ground (arith, eq_iff a b)

unless_same-ok : {rt : Runtime} (r : Result rt Bool) → unless_same r ≡ ok none → r ≡ ok true
unfolding unless_same
unless_same-ok (ok true) h = refl
unless_same-ok (ok false) h = absurd (cc)
unless_same-ok (err e) h = absurd (cc)

check_token-Bearer :
    {rt : Runtime} (token auth : String)
    → check_token {rt = rt} token auth ≡ ok none
    → auth ≡ "Bearer " ++ token
unfolding check_token
check_token-Bearer {rt} token auth =
    if_elim (λ (r : Result rt (Option (Response rt))). r ≡ ok none → auth ≡ "Bearer " ++ token)
      (is_prefix "Bearer " auth)
      (λ p h.
        is_prefix-drop "Bearer " auth p
        ∙ ap (λ rest. "Bearer " ++ rest)
            (compare_digest-eq {rt = rt} (drop 7 auth) token
              (unless_same-ok (compare_digest (drop 7 auth) token) h)))
      (λ _ h. absurd (cc))

-- The addresses of a listener that only its own computer reaches.
abbrev pub IsLoopback : String → Type 0
IsLoopback host =
    (host ≡ "127.0.0.1")
    ⊎ ((host ≡ "::1") ⊎ ((host ≡ "localhost") ⊎ ((rest : String) × (host ≡ "127." ++ rest))))

or_true : (a b : Bool) → (a || b) ≡ true → (a ≡ true) ⊎ (b ≡ true)
or_true true b h = inl refl
or_true false b h = inr h

is_loopback-IsLoopback : (host : String) → is_loopback host ≡ true → IsLoopback host
unfolding is_loopback
is_loopback-IsLoopback host h =
    let four = host == "127.0.0.1" in
    let six = host == "::1" in
    let name = host == "localhost" in
    elim (or_true (four || six || name) (is_prefix "127." host) h) [
      | inr p ↦ inr (inr (inr (drop 4 host, is_prefix-drop "127." host p)))
      | inl h' ↦ elim (or_true (four || six) name h') [
        | inr e ↦ inr (inr (inl (equal_text host "localhost" e)))
        | inl h'' ↦ elim (or_true four six h'') [
          | inr e ↦ inr (inl (equal_text host "::1" e))
          | inl e ↦ inl (equal_text host "127.0.0.1" e)
        ]
      ]
    ]

-- The listeners that the program makes, of an address and a token.
pub data Built {rt : Runtime} {W : Type 0} (host : String) (token : Option String)
    : A2AListener rt W → Type 0 where
  made : Built host token (new_listener host token)
  handled :
      {l : A2AListener rt W} (handler : Handler rt W)
      → Built host token l
      → Built host token (register_handler handler l)
  informed :
      {l : A2AListener rt W} (plugins : List (String × String))
      → Built host token l
      → Built host token (set_plugins_info plugins l)
  drained : {l : A2AListener rt W} → Built host token l → Built host token (drain l)

module _ {rt : Runtime} {W : Type 0} where
  Built-fields :
      {host : String} {token : Option String} {l : A2AListener rt W}
      → Built host token l
      → (l.allow_inbound_without_token ≡ is_loopback host) × (l.auth_token ≡ token)
  unfolding new_listener register_handler set_plugins_info drain
  Built-fields made = (refl, refl)
  Built-fields (handled handler b) = Built-fields b
  Built-fields (informed plugins b) = Built-fields b
  Built-fields (drained b) = Built-fields b

module _ {rt : Runtime} {W : Type 0} (l : A2AListener rt W) where
  -- What a header has to show of a listener on `host` with the token `t`: the token, or nothing if
  -- there is none and `host` is a loopback address.
  abbrev pub Holds : String → Option String → String → Type 0
  Holds host t auth =
      ((token : String) × (t ≡ some token) × (auth ≡ "Bearer " ++ token))
      ⊎ (((t ≡ none) ⊎ (t ≡ some "")) × IsLoopback host)

  -- Who may send.
  abbrev pub Entitled : String → Option String → String → Type 0
  Entitled host t auth = (l.reject_new ≡ false) × Holds host t auth

  without_token-loopback : without_token l ≡ ok none → l.allow_inbound_without_token ≡ true
  unfolding without_token
  without_token-loopback h = ground (arith, h)

  module _ (host : String) (t : Option String) (built : Built host t l) where
    unasked-IsLoopback : without_token l ≡ ok none → IsLoopback host
    unasked-IsLoopback h =
        is_loopback-IsLoopback host (sym (Built-fields built).0 ∙ without_token-loopback h)

    authorize-Holds :
        (s : Option String) (auth : String) → authorize l s auth ≡ ok none → Holds host s auth
    unfolding authorize
    authorize-Holds none auth = λ h. inr (inl refl, unasked-IsLoopback h)
    authorize-Holds (some token) auth =
        if_elim
          (λ (r : Result rt (Option (Response rt))). r ≡ ok none → Holds host (some token) auth)
          (token == "") (λ e h. inr (inr (ap some (equal_text token "" e)), unasked-IsLoopback h))
          (λ _ h. inl (token, refl, check_token-Bearer token auth h))

    refuse-Entitled : (auth : String) → refuse l auth ≡ ok none → Entitled host t auth
    unfolding refuse
    refuse-Entitled auth =
        if_elim (λ (r : Result rt (Option (Response rt))). r ≡ ok none → Entitled host t auth)
          l.reject_new (λ _ h. absurd (cc))
          (λ e h. (
            e,
            subst (λ s. Holds host s auth) (Built-fields built).1
                (authorize-Holds l.auth_token auth h),
          ))

    admit_if-runs :
        (r : Result rt (Option (Response rt))) (json : Result rt (Value rt))
        (f : Value rt → W → Result rt (Response rt) × W) (w : W)
        → ((admit_if r json f w).1 ≡ w) ⊎ (r ≡ ok none)
    unfolding admit_if
    admit_if-runs (err e) json f w = inl refl
    admit_if-runs (ok (some response)) json f w = inl refl
    admit_if-runs (ok none) json f w = inr refl

    -- A request to a listener that the program made for an address and a token changes something at
    -- one of the two endpoints only if the listener is not draining and either the header is Bearer
    -- with that token, or there is no token and the address is 127.0.0.1, ::1, localhost, or begins
    -- with 127. (the dot included).
    pub handle-Entitled :
        (show : Value rt → String) (request : Inbound rt) (w : W)
        → (((handle_inbound l request w).1 ≡ w) × ((handle_jsonrpc show l request w).1 ≡ w))
          ⊎ Entitled host t request.authorization
    unfolding handle_jsonrpc handle_inbound
    handle-Entitled show request w =
        let auth = request.authorization in
        elim (admit_if-runs (refuse l auth) request.json (deliver_body l) w) [
          | inr e ↦ inr (refuse-Entitled auth e)
          | inl e ↦ elim (admit_if-runs (refuse_rpc l auth) request.json (call_body show l) w) [
            | inr f ↦ inr (refuse-Entitled auth (sym (refuse_rpc-same l auth) ∙ f))
            | inl f ↦ inl (e, f)
          ]
        ]
