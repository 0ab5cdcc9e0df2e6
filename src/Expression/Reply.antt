-- ===== src/Expression/Reply.antt =====
-- What a method of the parser comes to: a value, an exception, or a run that was given too little
-- fuel, which has no counterpart in the program.
use agentwire_cue.Prelude.{◌≡◌, ◌≢◌, refl, Bool, true, false, Option, none, some, if◌then◌else◌}
use mathlib.Core.Path.{subst}
use agentwire_cue.Value.{Runtime}
use agentwire_cue.Outcome.{Exn}

pub data Reply {ℓ} (rt : Runtime) (A : Type ℓ) : Type ℓ where
  ok : A → Reply rt A
  failed : Exn rt → Reply rt A
  out_of_fuel : Reply rt A

infixl 5 ◌>>=◌
abbrev pub ◌>>=◌ {ℓ κ} :
    {rt : Runtime} {A : Type ℓ} {B : Type κ} → Reply rt A → (A → Reply rt B) → Reply rt B
ok a >>= f = f a
failed e >>= f = failed e
out_of_fuel >>= f = out_of_fuel

-- The run had enough fuel, and `P` holds of its value if it has one.
pub data Yields {ℓ κ} {rt : Runtime} {A : Type ℓ} (P : A → Type κ) : Reply rt A → Type (ℓ ⊔ κ) where
  value : {a : A} → P a → Yields P (ok a)
  raised : {e : Exn rt} → Yields P (failed e)

module _ {ℓ κ} {rt : Runtime} {A : Type ℓ} {P : A → Type κ} where
  pub Yields-ne-out_of_fuel : {r : Reply rt A} → Yields P r → r ≢ out_of_fuel
  Yields-ne-out_of_fuel (value h) = cc
  Yields-ne-out_of_fuel raised = cc

  pub Yields-ok : {r : Reply rt A} {a : A} → Yields P r → r ≡ ok a → P a
  Yields-ok (value h) e = subst P (cc) h
  Yields-ok raised e = cc

  pub Yields-if :
      (b : Bool) {x y : Reply rt A}
      → (b ≡ true → Yields P x)
      → Yields P y
      → Yields P (if b then x else y)
  Yields-if true hx hy = hx refl
  Yields-if false hx hy = hy

  pub Yields-option {ℓ'} :
      {B : Type ℓ'} (o : Option B) {x : Reply rt A} {g : B → Reply rt A}
      → Yields P x
      → ((b : B) → Yields P (g b))
      → Yields P (elim o [ none ↦ x | some b ↦ g b ])
  Yields-option none hx hg = hx
  Yields-option (some b) hx hg = hg b

  pub Yields-bind {ℓ' κ'} :
      {B : Type ℓ'} {Q : B → Type κ'} {r : Reply rt A} {f : A → Reply rt B}
      → Yields P r
      → ((a : A) → P a → Yields Q (f a))
      → Yields Q (r >>= f)
  Yields-bind (value {a} h) next = next a h
  Yields-bind raised next = raised

module _ {ℓ κ κ'} {rt : Runtime} {A : Type ℓ} {P : A → Type κ} {Q : A → Type κ'} where
  pub Yields-map : {r : Reply rt A} → Yields P r → ((a : A) → P a → Q a) → Yields Q r
  Yields-map (value {a} h) f = value (f a h)
  Yields-map raised f = raised

module _ {ℓ κ} {rt : Runtime} {A : Type ℓ} {B : Type κ} where
  pub bind-ne-out_of_fuel :
      (r : Reply rt A) (f : A → Reply rt B)
      → r ≢ out_of_fuel
      → ((a : A) → f a ≢ out_of_fuel)
      → (r >>= f) ≢ out_of_fuel
  bind-ne-out_of_fuel (ok a) f hr hf = hf a
  bind-ne-out_of_fuel (failed e) f hr hf = cc
  bind-ne-out_of_fuel out_of_fuel f hr hf = absurd (hr refl)
