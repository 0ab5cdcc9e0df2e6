-- ===== src/Statechart/Persist/Words.antt =====
-- Texts in which a word stands: `in` of Python as `has_infix` tests it.
use Prim.Native.String.{◌++◌}
use text.Mathlib.TextEquality.{Char-path}
use text.Mathlib.TextLemmas.{nil-append, cons-append}
use agentwire_cue.Prelude.{
  String, ◌≡◌, refl, sym, ap, ◌∙◌, Bool, true, false, ◌||◌, ◌⊎◌, inl, inr, List, [], ◌∷◌, arith,
  any,
}
use agentwire_cue.Statechart.Persist.{is_prefix, has_infix}

-- The word stands somewhere in the text.
abbrev pub StandsIn : String → String → Type 0
StandsIn word s = (before after : String) × (s ≡ before ++ (word ++ after))

-- One of the words does.
abbrev pub AnyStandsIn : List String → String → Type 0
AnyStandsIn [] s = ⊥
AnyStandsIn (word ∷ words) s = StandsIn word s ⊎ AnyStandsIn words s

is_prefix-rest : (p s : String) → is_prefix p s ≡ true → (after : String) × (s ≡ p ++ after)
unfolding is_prefix
is_prefix-rest String.[] s h = (s, sym (nil-append s))
is_prefix-rest (String.◌∷◌ c p) String.[] h = absurd (cc)
is_prefix-rest (String.◌∷◌ c p) (String.◌∷◌ d s) h =
    let (after, e) = is_prefix-rest p s (ground (arith, h)) in
    (after, ground (arith, h, e, Char-path c d, cons-append c p after))

is_prefix-append : (p after : String) → is_prefix p (p ++ after) ≡ true
unfolding is_prefix
is_prefix-append String.[] after = refl
is_prefix-append (String.◌∷◌ c p) after =
    ap (is_prefix (String.◌∷◌ c p)) (cons-append c p after)
    ∙ ground (arith, is_prefix-append p after)

is_prefix-has_infix : (p s : String) → is_prefix p s ≡ true → has_infix p s ≡ true
unfolding has_infix
is_prefix-has_infix p String.[] h = h
is_prefix-has_infix p (String.◌∷◌ c s) h = ap (λ b. b || has_infix p s) h

has_infix-StandsIn : (p s : String) → has_infix p s ≡ true → StandsIn p s
unfolding has_infix
has_infix-StandsIn p String.[] h =
    let (after, e) = is_prefix-rest p String.[] h in ("", after, e ∙ sym (nil-append (p ++ after)))
has_infix-StandsIn p (String.◌∷◌ c s) h =
    go (is_prefix p (String.◌∷◌ c s)) refl (has_infix-StandsIn p s) h
  where
    go :
        (b : Bool)
        → is_prefix p (String.◌∷◌ c s) ≡ b
        → (has_infix p s ≡ true → StandsIn p s)
        → (b || has_infix p s) ≡ true
        → StandsIn p (String.◌∷◌ c s)
    go true e rest h =
        let (after, split) = is_prefix-rest p (String.◌∷◌ c s) e in
        ("", after, split ∙ sym (nil-append (p ++ after)))
    go false e rest h =
        let (before, after, split) = rest h in
        (
          String.◌∷◌ c before,
          after,
          ap (String.◌∷◌ c) split ∙ sym (cons-append c before (p ++ after)),
        )

has_infix-append : (p before after : String) → has_infix p (before ++ (p ++ after)) ≡ true
unfolding has_infix
has_infix-append p String.[] after =
    ap (has_infix p) (nil-append (p ++ after))
    ∙ is_prefix-has_infix p (p ++ after) (is_prefix-append p after)
has_infix-append p (String.◌∷◌ c before) after =
    ap (has_infix p) (cons-append c before (p ++ after))
    ∙ ground (arith, has_infix-append p before after)

-- A word of the list stands in the text exactly if the test for one of them comes out true.
pub any-AnyStandsIn :
    (words : List String) (s : String)
    → any (λ word. has_infix word s) words ≡ true
    → AnyStandsIn words s
any-AnyStandsIn [] s h = absurd (cc)
any-AnyStandsIn (word ∷ words) s h = go (has_infix word s) refl (any-AnyStandsIn words s) h
  where
    go :
        (b : Bool)
        → has_infix word s ≡ b
        → (any (λ word. has_infix word s) words ≡ true → AnyStandsIn words s)
        → (b || any (λ word. has_infix word s) words) ≡ true
        → AnyStandsIn (word ∷ words) s
    go true e rest h = inl (has_infix-StandsIn word s e)
    go false e rest h = inr (rest h)

pub AnyStandsIn-any :
    (words : List String) (s : String)
    → AnyStandsIn words s
    → any (λ word. has_infix word s) words ≡ true
AnyStandsIn-any [] s h = absurd h
AnyStandsIn-any (word ∷ words) s (inl (before, after, e)) =
    ap (λ b. b || any (λ word. has_infix word s) words)
      (ap (has_infix word) e ∙ has_infix-append word before after)
AnyStandsIn-any (word ∷ words) s (inr h) = ground (arith, AnyStandsIn-any words s h)
