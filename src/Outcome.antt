-- ===== src/Outcome.antt =====
-- The exceptions of core/expression.py and of the Python that it calls, and computations that
-- may raise one.
use agentwire_cue.Prelude.{String, ◌≡◌, refl}
use agentwire_cue.Value.{Runtime, Fields}

-- The messages of ExpressionError, without the parts that only repeat the input.
pub data Fault : Type 0 where
  -- parser
  expected : String → Fault
  trailing_token end_of_expression expected_identifier : Fault
  unrecognized_literal : String → Fault
  unrecognized_token : Fault
  -- evaluator
  empty_path now_is_function now_arguments since_arguments since_not_numeric : Fault
  duration_arguments : Fault
  forbidden_namespace unknown_function : String → Fault

pub data Exn (rt : Runtime) : Type 0 where
  -- ExpressionError
  expression : Fault → Exn rt
  -- an exception with a `reason`, such as HistoryDiagnosticError, and its `details`
  diagnostic : String → Fields rt → Exn rt
  -- KeyError of `d[k]`
  key_error : String → Exn rt
  -- OverflowError or ValueError of a conversion between number types
  conversion_error : Exn rt
  type_error : Exn rt
  -- AttributeError and what else Python raises
  python_error : Exn rt

pub data Result {ℓ} (rt : Runtime) (A : Type ℓ) : Type ℓ where
  ok : A → Result rt A
  err : Exn rt → Result rt A

infixl 5 ◌>>=◌
abbrev pub ◌>>=◌ {ℓ κ} :
    {rt : Runtime} {A : Type ℓ} {B : Type κ} → Result rt A → (A → Result rt B) → Result rt B
ok a >>= f = f a
err e >>= f = err e

pub result_elim {ℓ κ ι} :
    {rt : Runtime} {A : Type ℓ} {B : Type κ} (P : B → Type ι) (r : Result rt A) {f : Exn rt → B}
    {g : A → B}
    → ((e : Exn rt) → P (f e))
    → ((a : A) → r ≡ ok a → P (g a))
    → P (elim r [ err e ↦ f e | ok a ↦ g a ])
result_elim P (ok a) hf hg = hg a refl
result_elim P (err e) hf hg = hf e

pub ok-injective :
    {rt : Runtime} {A : Type 0} {a b : A} → ◌≡◌ {A = Result rt A} (ok a) (ok b) → a ≡ b
ok-injective h = cc
