-- ===== src/Loader/Overlay/Laws.antt =====
-- What is under a key after an overlay.
use agentwire_cue.Prelude.{
  String, ◌≡◌, refl, sym, ap, ◌∙◌, Bool, true, false, Option, none, some, ◌==◌, if◌then◌else◌,
  eq_iff,
}
use agentwire_cue.Value.{Runtime, Value, Fields, dict, end, field}
use agentwire_cue.Value.Dict
use agentwire_cue.Value.Dict.{get-set}
use agentwire_cue.Loader.Overlay.{deep_merge, merged_value}

-- No key stands twice, as in every Python dict.
abbrev pub Distinct : {rt : Runtime} → Fields rt → Type 0
Distinct end = Unit
Distinct (field k v d) = (Dict.get k d ≡ none) × Distinct d

module _ {rt : Runtime} where
  abbrev pub overlaid : Option (Value rt) → Option (Value rt) → Option (Value rt)
  overlaid base none = base
  overlaid (some (dict b)) (some (dict o)) = some (dict (deep_merge b o))
  overlaid _ (some v) = some v

  overlaid-some :
      (base : Option (Value rt)) (v : Value rt)
      → overlaid base (some v) ≡ some (merged_value base v)
  unfolding merged_value
  overlaid-some none v = refl
  overlaid-some (some (dict b)) (dict o) = refl
  overlaid-some (some _) _ = refl

  -- After a merge, a key that the overlay lacks has the value of the base; a key of the overlay has
  -- the value of the overlay, merged with the one of the base if both are dicts.
  pub get-deep_merge :
      (base overlay : Fields rt)
      → Distinct overlay
      → (k : String)
      → Dict.get k (deep_merge base overlay) ≡ overlaid (Dict.get k base) (Dict.get k overlay)
  unfolding deep_merge Dict.get
  get-deep_merge base end h k = refl
  get-deep_merge base (field key v overlay) (fresh, h) k =
      let value = merged_value (Dict.get key base) v in
      get-deep_merge (Dict.set key value base) overlay h k
      ∙ ap (λ o. overlaid o (Dict.get k overlay)) (get-set key k value base)
      ∙ go (key == k) refl
    where
      go :
          (b : Bool)
          → (key == k) ≡ b
          → overlaid
              (if b then some (merged_value (Dict.get key base) v) else Dict.get k base)
              (Dict.get k overlay)
            ≡ overlaid (Dict.get k base) (if b then some v else Dict.get k overlay)
      go true e =
          let same : key ≡ k = (eq_iff key k).0 e in
          ap (overlaid (some (merged_value (Dict.get key base) v)))
            (ap (λ j. Dict.get j overlay) (sym same) ∙ fresh)
          ∙ ap (λ j. some (merged_value (Dict.get j base) v)) same
          ∙ sym (overlaid-some (Dict.get k base) v)
      go false e = refl
