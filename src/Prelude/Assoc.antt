-- ===== src/Prelude/Assoc.antt =====
-- Association lists with text keys, for Python's dicts with values of one type.
use Prim.Native.String.{String}
use mathlib.Core.Path.{◌≡◌, refl}
use mathlib.Core.Option.{Option, none, some}
use mathlib.Core.List.{List, [], ◌∷◌}
use native.Mathlib.Omega.{arith}
use text.Mathlib.Text.{◌==◌}
use text.Mathlib.TextEquality.{eq_iff}
use agentwire_cue.Prelude.Tests.{if◌then◌else◌}

abbrev pub Assoc : Type 0 → Type 0
Assoc A = List (String × A)

module _ {A : Type 0} where
  unfoldable pub get : String → Assoc A → Option A
  get k [] = none
  get k ((j, a) ∷ d) = if j == k then some a else get k d

  unfoldable pub set : String → A → Assoc A → Assoc A
  set k a [] = (k, a) ∷ []
  set k a ((j, b) ∷ d) = let rest = set k a d in if j == k then (j, a) ∷ d else (j, b) ∷ rest

  -- d.pop(k, None)
  unfoldable pub remove : String → Assoc A → Assoc A
  remove k [] = []
  remove k ((j, b) ∷ d) = let rest = remove k d in if j == k then rest else (j, b) ∷ rest

  pub get-set :
      (k j : String) (a : A) (d : Assoc A)
      → get j (set k a d) ≡ (if k == j then some a else get j d)
  unfolding get set
  get-set k j a [] = refl
  get-set k j a ((i, b) ∷ d) = ground (arith, eq_iff k j, eq_iff i k, eq_iff i j, get-set k j a d)

  pub get-remove :
      (k j : String) (d : Assoc A) → get j (remove k d) ≡ (if k == j then none else get j d)
  unfolding get remove
  get-remove k j [] = ground arith
  get-remove k j ((i, b) ∷ d) = ground (arith, eq_iff k j, eq_iff i k, eq_iff i j, get-remove k j d)
