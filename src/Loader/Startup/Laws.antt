-- ===== src/Loader/Startup/Laws.antt =====
-- `check_secrets`: what is in the dict, and when the start fails.
use agentwire_cue.Prelude.{
  String, Bool, true, false, Option, none, some, List, [], ◌∷◌, ◌==◌, ◌≡◌, refl, ◌⊎◌, inl, inr,
  if◌then◌else◌, ◌∙◌, sym, ap, if_elim,
}
use agentwire_cue.Prelude.Assoc as Assoc
use agentwire_cue.Prelude.Assoc.{Assoc, get-set}
use agentwire_cue.Loader.Startup.{
  Secret, Secrets, resolved, not_set, check_secrets_from, check_secrets,
}

-- The value of a key after a variable is looked up, whose name is the key or not.
abbrev pub after : Option String → Bool → Option String → Option String
after none here v = v
after (some e) here v = if here then some e else v

-- `option_elim` with the equation of both cases.
option_split {ℓ κ ι} :
    {A : Type ℓ} {B : Type κ} (P : B → Type ι) (o : Option A) {x : B} {f : A → B}
    → (o ≡ none → P x)
    → ((a : A) → o ≡ some a → P (f a))
    → P (elim o [ none ↦ x | some a ↦ f a ])
option_split P none hx hf = hx refl
option_split P (some a) hx hf = hf a refl

module _ (environ : String → Option String) where
  -- The value of j after the loop, from the one before it.
  abbrev pub wanted : List Secret → String → Option String → Option String
  wanted [] j v = v
  wanted (s ∷ ss) j v = wanted ss j (after (environ s.name) (s.name == j) v)

  -- A required variable of that name is not set.
  abbrev pub IsMissing : String → List Secret → Type 0
  IsMissing n [] = ⊥
  IsMissing n (s ∷ ss) =
      ((s.name ≡ n) × (s.required ≡ true) × (environ s.name ≡ none)) ⊎ IsMissing n ss

  -- Each variable is optional or set.
  abbrev pub NoneMissing : List Secret → Type 0
  NoneMissing [] = Unit {0}
  NoneMissing (s ∷ ss) =
      ((s.required ≡ false) ⊎ ((v : String) × (environ s.name ≡ some v))) × NoneMissing ss

  -- What the outcome says of the entries and of the dict before them.
  abbrev pub Checked : List Secret → Assoc String → Secrets → Type 0
  Checked ss found (resolved d) =
      NoneMissing ss × ((j : String) → Assoc.get j d ≡ wanted ss j (Assoc.get j found))
  Checked ss found (not_set n) = IsMissing n ss

  skip-Checked :
      (s : Secret) (ss : List Secret) (found : Assoc String)
      → environ s.name ≡ none
      → s.required ≡ false
      → (r : Secrets) → Checked ss found r
      → Checked (s ∷ ss) found r
  skip-Checked s ss found e q (resolved d) (n, h) = (
    (inl q, n),
    λ j.
        h j
        ∙ ap (λ (o : Option String). wanted ss j (after o (s.name == j) (Assoc.get j found)))
            (sym e),
  )
  skip-Checked s ss found e q (not_set n) h = inr h

  keep-Checked :
      (s : Secret) (ss : List Secret) (found : Assoc String) (v : String)
      → environ s.name ≡ some v
      → (r : Secrets) → Checked ss (Assoc.set s.name v found) r
      → Checked (s ∷ ss) found r
  keep-Checked s ss found v e (resolved d) (n, h) = (
    (inr (v, e), n),
    λ j.
        h j
        ∙ ap (wanted ss j) (get-set s.name j v found)
        ∙ ap (λ (o : Option String). wanted ss j (after o (s.name == j) (Assoc.get j found)))
            (sym e),
  )
  keep-Checked s ss found v e (not_set n) h = inr h

  check_secrets_from-Checked :
      (ss : List Secret) (found : Assoc String)
      → Checked ss found (check_secrets_from environ ss found)
  unfolding check_secrets_from
  check_secrets_from-Checked [] found = (tt, λ j. refl)
  check_secrets_from-Checked (s ∷ ss) found =
      option_split (Checked (s ∷ ss) found) (environ s.name)
        (λ e.
          if_elim (Checked (s ∷ ss) found) s.required (λ q. inl (refl, q, e))
            (λ q.
              skip-Checked s ss found e q (check_secrets_from environ ss found)
                (check_secrets_from-Checked ss found)))
        (λ v e.
          keep-Checked s ss found v e (check_secrets_from environ ss (Assoc.set s.name v found))
            (check_secrets_from-Checked ss (Assoc.set s.name v found)))

  -- The dict of check_secrets holds for each name the value of the variable, if the name is listed
  -- and the variable is set, and nothing else, and then every variable that is not set is optional;
  -- or the error names a listed variable that is required and not set.
  pub check_secrets-Checked : (ss : List Secret) → Checked ss [] (check_secrets environ ss)
  unfolding check_secrets
  check_secrets-Checked ss = check_secrets_from-Checked ss []
