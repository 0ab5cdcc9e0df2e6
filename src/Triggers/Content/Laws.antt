-- ===== src/Triggers/Content/Laws.antt =====
-- When the content trigger fires.
use agentwire_cue.Prelude.{
  ◌+◌, String, ◌≡◌, refl, sym, ap, ◌∙◌, Bool, true, false, List, [], ◌∷◌, arith, ◌&&◌, length,
  if◌then◌else◌,
}
use agentwire_cue.Value.{Runtime, Value}
use agentwire_cue.Outcome.{Result, ok, ok-injective, ◌>>=◌}
use agentwire_cue.Statechart.Persist.{has_infix}
use agentwire_cue.Statechart.Model.{Chart, Host}
use agentwire_cue.Statechart.Tracked.{Plugin}
use agentwire_cue.Triggers.Content.{
  ContentMatchTrigger, count_matches, matched_keywords, extract_message_text, text_matches, matches,
  passes_peer, fire, on_text, on_extracted, on_passed, on_message,
}

length-matched_keywords :
    (text : String) (kws : List String)
    → length (matched_keywords text kws) ≡ count_matches text kws
unfolding matched_keywords count_matches
length-matched_keywords text [] = refl
length-matched_keywords text (kw ∷ kws) = go (has_infix kw text) (length-matched_keywords text kws)
  where
    go :
        (b : Bool)
        → length (matched_keywords text kws) ≡ count_matches text kws
        → length (if b then kw ∷ matched_keywords text kws else matched_keywords text kws)
          ≡ (if b then 1 + count_matches text kws else count_matches text kws)
    go true h = omega (arith, h)
    go false h = h

module _ {rt : Runtime} (host : Host rt) (chart : Chart rt) (t : ContentMatchTrigger)
    (message : Value rt) (p : Plugin rt) where
  on_text-matches :
      (text : String)
      → on_text host chart t message text p
        ≡ (if text_matches t text then fire host chart t message text p else p)
  unfolding on_text text_matches
  on_text-matches text = ground (arith, length-matched_keywords text t.contains)

  -- If the text of a message can be extracted, and its peer and its text can be tested,
  -- _on_message fires the event exactly if the message passes the peer filter and `matches` holds
  -- of it, and otherwise changes nothing.
  pub on_message-matches :
      (text : String)
      → extract_message_text message ≡ ok text
      → (passed : Bool) → passes_peer t message ≡ ok passed
      → (b : Bool) → matches t message ≡ ok b
      → on_message host chart t message p
        ≡ (ok tt, if passed && b then fire host chart t message text p else p)
  unfolding on_message on_passed matches
  on_message-matches text h passed k b m =
      ap (λ (r : Result rt Bool). on_passed host chart t message r p) k ∙ go passed
    where
      decided : text_matches t text ≡ b
      decided =
          ok-injective (ap (λ (r : Result rt String). r >>= λ s. ok (text_matches t s)) (sym h) ∙ m)

      go :
          (a : Bool)
          → on_passed host chart t message (ok a) p
            ≡ (ok tt, if a && b then fire host chart t message text p else p)
      go false = refl
      go true =
          ap (λ (r : Result rt String). on_extracted host chart t message r p) h
          ∙ ap (λ (q : Plugin rt). (ok tt, q))
              (on_text-matches text
                ∙ ap (λ (c : Bool). if c then fire host chart t message text p else p) decided)
