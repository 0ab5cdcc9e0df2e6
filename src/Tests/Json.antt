-- ===== src/Tests/Json.antt =====
-- A JSON with one document.
use agentwire_cue.Prelude.{
  String, ◌≡◌, refl, Bool, true, false, Option, none, some, ◌==◌, eq_iff, arith,
}
use agentwire_cue.Prelude.Int.{ℤ, pos, int_eq}
use agentwire_cue.Value.{Value, int, str, dict, end, field}
use agentwire_cue.Tests.Sample.{small}

infixl 5 ◌>>=◌
abbrev pub ◌>>=◌ : {A B : Type 0} → Option A → (A → Option B) → Option B
none >>= f = none
some a >>= f = f a

-- The proof that goes with a test that came out true.
abbrev pub decided : {P : Type 0} → (b : Bool) → (b ≡ true → P) → Option P
decided true proof = some (proof refl)
decided false proof = none

abbrev pub text_same : (s t : String) → Option (s ≡ t)
text_same s t = decided (s == t) (eq_iff s t).0

pub int_eq_sound : (m n : ℤ) → int_eq m n ≡ true → m ≡ n
int_eq_sound m n h = ground arith

abbrev pub int_same : (m n : ℤ) → Option (m ≡ n)
int_same m n = decided (int_eq m n) (int_eq_sound m n)

abbrev pub document : Value small
document = dict (
    field "schema_version" (int (pos 1)) (
      field "meta" (dict (field "name" (str "lamp") (field "version" (str "1") end))) (
        field "context" (dict (field "visits" (int (pos 1)) end)) (
          field "state_id" (str "idle") (
            field "state_entered_at_ms" (int (pos 5)) (field "updated_at_ms" (int (pos 9)) end))))))

abbrev pub same_document : (v : Value small) → Option (v ≡ document)
same_document
      (dict (
        field k0 (int i) (
          field k1 (dict (field k2 (str name) (field k3 (str version) end))) (
            field k4
              (dict (field k5 (int n) end))
              (field k6 (str state) (field k7 (int t) (field k8 (int u) end))))))) =
    do
      p0 ← text_same k0 "schema_version"
      q0 ← int_same i (pos 1)
      p1 ← text_same k1 "meta"
      p2 ← text_same k2 "name"
      q2 ← text_same name "lamp"
      p3 ← text_same k3 "version"
      q3 ← text_same version "1"
      p4 ← text_same k4 "context"
      p5 ← text_same k5 "visits"
      q5 ← int_same n (pos 1)
      p6 ← text_same k6 "state_id"
      q6 ← text_same state "idle"
      p7 ← text_same k7 "state_entered_at_ms"
      q7 ← int_same t (pos 5)
      p8 ← text_same k8 "updated_at_ms"
      q8 ← int_same u (pos 9)
      some cc
same_document v = none

abbrev pub text : String
text = "{\"schema_version\": 1}"

-- `json.dumps` of the document, and no other.
abbrev pub dumps : Value small → Option String
dumps v = elim (same_document v) [ none ↦ none | some _ ↦ some text ]

-- `json.loads`.
abbrev pub loads : String → Option (Value small)
loads s = some document

pub loads-dumps : (v : Value small) (s : String) → dumps v ≡ some s → loads s ≡ some v
loads-dumps v s h = go (same_document v) h
  where
    go :
        (same : Option (v ≡ document))
        → (elim same [ none ↦ none | some _ ↦ some text ]) ≡ some s
        → loads s ≡ some v
    go none h = cc
    go (some e) h = cc
