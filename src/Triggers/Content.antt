-- ===== src/Triggers/Content.antt =====
-- `ContentMatchTrigger` of core/trigger_impl.py.
pub mod Laws
use Prim.Native.String.{◌++◌}
use agentwire_cue.Prelude.{
  ℕ, String, Bool, true, false, Option, none, some, List, [], ◌∷◌, ◌==◌, ◌+◌, length, if◌then◌else◌,
}
use agentwire_cue.Prelude.Int.{ℤ, pos, int_leb, int_ltb}
use agentwire_cue.Value.{
  Runtime, Value, Values, Fields, int, str, list, dict, nil, cons, end, field, truthy,
}
use agentwire_cue.Value.Dict
use agentwire_cue.Outcome.{Result, ok, err, type_error, python_error, ◌>>=◌}
use agentwire_cue.Statechart.Action.{get_field}
use agentwire_cue.Statechart.Persist.{has_infix}
use agentwire_cue.Statechart.Model.{Chart, Host}
use agentwire_cue.Statechart.Tracked.{Plugin, run_tracked_transition}
use agentwire_cue.Permission.Enforcer.{characters, keys}
use agentwire_cue.Triggers.Messages.{message_id_of}

pub record ContentMatchTrigger : Type 0 where
  pub contains : List String
  pub min_match : ℤ
  -- self.config.get('peer') or None
  pub peer_filter : Option String

-- ' '.join(texts)
unfoldable pub join_spaces : List String → String
join_spaces [] = ""
join_spaces (s ∷ []) = s
join_spaces (s ∷ t ∷ texts) = s ++ " " ++ join_spaces (t ∷ texts)

-- sum(1 for kw in contains if kw in text), and [kw for kw in contains if kw in text]
unfoldable pub count_matches : String → List String → ℕ
unfolding has_infix
count_matches text [] = 0
count_matches text (kw ∷ kws) =
    let rest = count_matches text kws in if has_infix kw text then 1 + rest else rest

unfoldable pub matched_keywords : String → List String → List String
unfolding has_infix
matched_keywords text [] = []
matched_keywords text (kw ∷ kws) =
    let rest = matched_keywords text kws in if has_infix kw text then kw ∷ rest else rest

-- Whether a text has enough of the keywords; an empty text has not.
unfoldable pub text_matches : ContentMatchTrigger → String → Bool
unfolding count_matches
text_matches t text =
    if text == "" then false else int_leb t.min_match (pos (count_matches text t.contains))

module _ {rt : Runtime} where
  -- What `for part in parts` goes through.
  unfoldable pub parts_of : Value rt → Result rt (Values rt)
  unfolding characters keys
  parts_of (list vs) = ok vs
  parts_of (str s) = ok (characters s)
  parts_of (dict d) = ok (keys d)
  parts_of v = err type_error

  -- The text of one part, if it has one; `join` raises at what is no text.
  unfoldable pub part_text : Value rt → Result rt (Option String)
  unfolding truthy
  part_text (str s) = ok (some s)
  part_text (dict part) = elim (Dict.get_or "type" Value.none part) [
    | str type ↦
        if type == "text"
        then elim (Dict.get_or "text" (str "") part) [
          | str t ↦ ok (if t == "" then none else some t)
          | v ↦ if truthy v then err type_error else ok none
        ]
        else ok none
    | _ ↦ ok none
  ]
  part_text v = ok none

  unfoldable pub collect : Values rt → Result rt (List String)
  unfolding part_text
  collect nil = ok []
  collect (cons part parts) = do
    t ← part_text part
    texts ← collect parts
    ok (elim t [ none ↦ texts | some s ↦ s ∷ texts ])

  unfoldable pub extract_message_text : Value rt → Result rt String
  unfolding get_field parts_of collect join_spaces
  extract_message_text message = do
    parts ← get_field message "parts" (list nil)
    vs ← parts_of parts
    texts ← collect vs
    ok (join_spaces texts)

  unfoldable pub matches : ContentMatchTrigger → Value rt → Result rt Bool
  unfolding extract_message_text text_matches
  matches t message = extract_message_text message >>= λ text. ok (text_matches t text)

  unfoldable pub is_text : String → Value rt → Bool
  is_text s (str t) = t == s
  is_text s v = false

  -- message.get('peer') or message.get('metadata', {}).get('source_peer', '')
  unfoldable pub source_of : Value rt → Result rt (Value rt)
  unfolding get_field truthy
  source_of message = do
    peer ← get_field message "peer" Value.none
    metadata ← get_field message "metadata" (dict end)
    (if truthy peer then ok peer else get_field metadata "source_peer" (str ""))

  -- The peer filter of `_on_message`: whether it lets the message through.
  unfoldable pub passes_peer : ContentMatchTrigger → Value rt → Result rt Bool
  unfolding source_of is_text
  passes_peer t message = elim t.peer_filter [
    | none ↦ ok true
    | some peer ↦ source_of message >>= λ source. ok (is_text peer source)
  ]

  unfoldable pub strings : List String → Values rt
  strings [] = nil
  strings (s ∷ ss) = cons (str s) (strings ss)

  -- The payload of the event, of a message that is a dict.
  unfoldable pub event_payload : ContentMatchTrigger → Fields rt → String → Fields rt
  unfolding matched_keywords strings
  event_payload t message text =
      field "peer"
        (elim t.peer_filter [
          | some peer ↦ str peer
          | none ↦ Dict.get_or "peer" (str "unknown") message
        ])
        (field "peer_uuid" (Dict.get_or "peer_uuid" (str "") message) (
          field "text" (str text) (
            field "parts" (Dict.get_or "parts" (list nil) message) (
              field "metadata" (Dict.get_or "metadata" (dict end) message) (
                field "matched_keywords" (list (strings (matched_keywords text t.contains)))
                  (field "contains_count" (int (pos (length t.contains))) end))))))

  module _ (host : Host rt) (chart : Chart rt) where
    unfoldable pub fire : ContentMatchTrigger → Value rt → String → Plugin rt → Plugin rt
    unfolding event_payload message_id_of run_tracked_transition
    fire t (dict message) text p =
        (run_tracked_transition host chart
          (record {
            type = "content_match";
            payload = event_payload t message text;
            message_id = message_id_of message;
            source_peer = none;
          })
          p).1
    fire t v text p = p

    -- From the text of the message on.
    unfoldable pub on_text : ContentMatchTrigger → Value rt → String → Plugin rt → Plugin rt
    unfolding fire matched_keywords
    on_text t message text p =
        if text == ""
        then p
        else if int_ltb (pos (length (matched_keywords text t.contains))) t.min_match
        then p
        else fire t message text p

    unfoldable pub on_extracted :
        ContentMatchTrigger
        → Value rt
        → Result rt String
        → Plugin rt
        → Result rt (Unit {0}) × Plugin rt
    unfolding on_text
    on_extracted t message (err e) p = (err e, p)
    on_extracted t message (ok text) p = (ok tt, on_text t message text p)

    unfoldable pub on_passed :
        ContentMatchTrigger
        → Value rt
        → Result rt Bool
        → Plugin rt
        → Result rt (Unit {0}) × Plugin rt
    unfolding extract_message_text on_extracted
    on_passed t message (err e) p = (err e, p)
    on_passed t message (ok false) p = (ok tt, p)
    on_passed t message (ok true) p = on_extracted t message (extract_message_text message) p

    -- `_on_message`
    unfoldable pub on_message :
        ContentMatchTrigger → Value rt → Plugin rt → Result rt (Unit {0}) × Plugin rt
    unfolding passes_peer on_passed
    on_message t message p = on_passed t message (passes_peer t message) p
