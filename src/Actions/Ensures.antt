-- ===== src/Actions/Ensures.antt =====
-- What an action of the statechart returns, if it returns, and the names of a dict.
use agentwire_cue.Prelude.{
  String, ◌≡◌, refl, Bool, true, false, ◌⊎◌, Option, none, some, [], ◌∷◌, ◌==◌, if◌then◌else◌,
  if_elim,
}
use agentwire_cue.Prelude.Assoc.{Assoc}
use agentwire_cue.Value.{Runtime, Value, Fields, end, field}
use agentwire_cue.Value.Dict
use agentwire_cue.Outcome.{Result}
use agentwire_cue.Statechart.Model.{Outcome, Run, action_error, ok, err}
use agentwire_cue.Statechart.Action.{Action, continue, pure, raise, lift, ◌>>=◌}
use agentwire_cue.Permission.Enforcer.{Decision, Enforcer}
use agentwire_cue.Statechart.Transition.{update}
use agentwire_cue.Actions.{Installed, require_enforcer, require}

-- A key of a dict.
abbrev pub IsNamed : {A : Type 0} → String → Assoc A → Type 0
IsNamed name [] = ⊥
IsNamed name ((n, a) ∷ d) = (name ≡ n) ⊎ IsNamed name d

-- What an action returns, if it returns, has the property.
module _ {rt : Runtime} where
  abbrev pub HoldsOf : {A : Type 0} → (A → Type 0) → Outcome rt A → Type 0
  HoldsOf P (ok a) = P a
  HoldsOf P (err x) = Unit

  abbrev pub Ensures : {A : Type 0} → (A → Type 0) → Action rt A → Type 0
  Ensures P m = (r : Run rt) → HoldsOf P (m r).0

  pub Ensures-bind :
      {A B : Type 0} {P : A → Type 0} (Q : B → Type 0) (m : Action rt A) (f : A → Action rt B)
      → Ensures P m
      → ((a : A) → P a → Ensures Q (f a))
      → Ensures Q (m >>= f)
  Ensures-bind {A = A} {P = P} Q m f h k r = go (m r) (h r)
    where
      go : (o : Outcome rt A × Run rt) → HoldsOf P o.0 → HoldsOf Q (continue o.0 f o.1).0
      go (ok a, r') p = k a p r'
      go (err x, r') p = tt

  pub Ensures-next :
      {A B : Type 0} (Q : B → Type 0) (m : Action rt A) (f : A → Action rt B)
      → ((a : A) → Ensures Q (f a))
      → Ensures Q (m >>= f)
  Ensures-next {A = A} Q m f k r = go (m r)
    where
      go : (o : Outcome rt A × Run rt) → HoldsOf Q (continue o.0 f o.1).0
      go (ok a, r') = k a r'
      go (err x, r') = tt

  pub Ensures-map :
      {A : Type 0} {P Q : A → Type 0} (m : Action rt A)
      → ((a : A) → P a → Q a)
      → Ensures P m
      → Ensures Q m
  Ensures-map {A = A} {P = P} {Q = Q} m f h r = go (m r).0 (h r)
    where
      go : (o : Outcome rt A) → HoldsOf P o → HoldsOf Q o
      go (ok a) p = f a p
      go (err x) p = tt

  -- The check came out as allowed.
  abbrev pub Allows : Result rt Decision → Type 0
  Allows check = (d : Decision) × (check ≡ Result.ok d) × (d.allowed ≡ true)

  -- Every name of a dict has the property.
  abbrev pub AllNames : (String → Type 0) → Fields rt → Type 0
  AllNames P end = Unit {0}
  AllNames P (field name v d) = P name × AllNames P d

  pub AllNames-map :
      {P Q : String → Type 0} (d : Fields rt)
      → ((name : String) → P name → Q name)
      → AllNames P d
      → AllNames Q d
  AllNames-map end f h = tt
  AllNames-map (field name v d) f (p, h) = (f name p, AllNames-map d f h)

  pub set-AllNames :
      (P : String → Type 0) (k : String) (v : Value rt) (d : Fields rt)
      → P k
      → AllNames P d
      → AllNames P (Dict.set k v d)
  unfolding Dict.set
  set-AllNames P k v end p h = (p, tt)
  set-AllNames P k v (field j w d) p (q, h) =
      if_elim (AllNames P) (j == k) (λ _. (q, h)) (λ _. (q, set-AllNames P k v d p h))

  pub update-AllNames :
      (P : String → Type 0) (d new : Fields rt)
      → AllNames P d
      → AllNames P new
      → AllNames P (update d new)
  unfolding update
  update-AllNames P d end h k = h
  update-AllNames P d (field name v new) h (p, k) =
      update-AllNames P (Dict.set name v d) new (set-AllNames P name v d p h) k

  pub lift-Ensures : {A : Type 0} (r : Result rt A) → Ensures (λ a. r ≡ Result.ok a) (lift r)
  unfolding lift
  lift-Ensures (Result.ok a) = λ r. refl
  lift-Ensures (Result.err e) = λ r. tt

  pub require-Ensures :
      (check : Result rt Decision) → Ensures (λ (_ : Unit {0}). Allows check) (require check)
  unfolding require raise pure
  require-Ensures (Result.err e) = λ r. tt
  require-Ensures (Result.ok d) = go d.allowed refl
    where
      go :
          (b : Bool)
          → d.allowed ≡ b
          → Ensures
              (λ (_ : Unit {0}). Allows (Result.ok d))
              (if b then pure tt else raise action_error)
      go true h r = (d, refl, h)
      go false h r = tt

  pub require_enforcer-Ensures :
      (i : Installed rt) → Ensures (λ e. i.enforcer ≡ some e) (require_enforcer i)
  unfolding require_enforcer raise pure
  require_enforcer-Ensures i r = go i.enforcer refl
    where
      go :
          (o : Option (Enforcer rt))
          → i.enforcer ≡ o
          → HoldsOf
              (λ e. i.enforcer ≡ some e)
              ((elim o as (λ _. Action rt (Enforcer rt)) [
                | none ↦ raise action_error
                | some e ↦ pure e
              ])
                r).0
      go none h = tt
      go (some e) h = h
