-- ===== src/Permission/Glob/Laws.antt =====
-- The patterns that look for a word.
use Prim.Native.Char.{char}
use Prim.Native.String.{◌++◌}
use text.Mathlib.TextLemmas.{cons-append, nil-append}
use agentwire_cue.Prelude.{
  zero, String, code, ◌≡◌, refl, ap, ◌∙◌, Bool, true, not, ◌&&◌, ◌||◌, List, [], ◌∷◌, nat_eq, arith,
}
use agentwire_cue.Expression.Lexer.{is_char}
use agentwire_cue.Statechart.Persist.{is_prefix, has_infix}
use agentwire_cue.Permission.Glob.{Item, star, literal, anywhere, matches, items_from, fnmatch}

-- No character of the word has a meaning of its own in a pattern.
abbrev pub is_plain : String → Bool
is_plain String.[] = true
is_plain (String.◌∷◌ c s) = not (is_char b'*' c || is_char b'?' c || is_char b'[' c) && is_plain s

abbrev pub Plain : String → Type 0
Plain word = is_plain word ≡ true

abbrev letters : String → List Item
letters String.[] = star ∷ []
letters (String.◌∷◌ c s) = literal c ∷ letters s

items-Plain : (word : String) → Plain word → items_from zero (word ++ "*") ≡ letters word
unfolding items_from
items-Plain String.[] h = ap (items_from zero) (nil-append "*") ∙ refl
items-Plain (String.◌∷◌ c word) h =
    ap (items_from zero) (cons-append c word "*")
    ∙ ground (arith, h, items-Plain word (ground (arith, h)))

anywhere_empty : (s : String) → anywhere (matches []) s ≡ true
unfolding anywhere matches
anywhere_empty String.[] = refl
anywhere_empty (String.◌∷◌ c s) = anywhere_empty s

matches-letters : (word s : String) → matches (letters word) s ≡ is_prefix word s
unfolding matches is_prefix
matches-letters String.[] s = anywhere_empty s
matches-letters (String.◌∷◌ c word) String.[] = refl
matches-letters (String.◌∷◌ c word) (String.◌∷◌ d s) =
    ap (λ b. nat_eq (code c) (code d) && b) (matches-letters word s)

anywhere-infix : (word s : String) → anywhere (matches (letters word)) s ≡ has_infix word s
unfolding anywhere has_infix
anywhere-infix word String.[] = matches-letters word String.[]
anywhere-infix word (String.◌∷◌ c s) =
    cc (matches-letters word (String.◌∷◌ c s), anywhere-infix word s)

star-append : (t : String) → "*" ++ t ≡ String.◌∷◌ (char b'*' tt) t
star-append t =
    cons-append (char b'*' tt) String.[] t ∙ ap (String.◌∷◌ (char b'*' tt)) (nil-append t)

-- A pattern that has a star at both ends of a plain word matches the texts in which the word stands.
pub fnmatch-infix :
    (word s : String) → Plain word → fnmatch s ("*" ++ word ++ "*") ≡ has_infix word s
unfolding fnmatch
fnmatch-infix word s h =
    ap (fnmatch s) (star-append (word ++ "*"))
    ∙ ap (λ items. matches (star ∷ items) s) (items-Plain word h)
    ∙ anywhere-infix word s
