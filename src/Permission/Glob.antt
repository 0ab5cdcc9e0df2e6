-- ===== src/Permission/Glob.antt =====
-- `fnmatch.fnmatch` on a POSIX host: `*`, `?`, `[set]` and `[!set]`.
pub mod Laws
use Prim.Native.String.{◌++◌, count}
use agentwire_cue.Prelude.{
  ℕ, zero, suc, ◌+◌, String, Char, code, Bool, true, false, not, ◌&&◌, ◌||◌, Option, none, some,
  List, [], ◌∷◌, leb, nat_eq, if◌then◌else◌,
}
use agentwire_cue.Expression.Lexer.{is_char}

-- `chosen negated set` is one character in the set, or not in it.
pub data Item : Type 0 where
  star any_one : Item
  literal : Char → Item
  chosen : Bool → String → Item

abbrev pub same_char : Char → Char → Bool
same_char c d = nat_eq (code c) (code d)

-- A character between two others stands for a range if it is a hyphen.
unfoldable pub in_set : String → Char → Bool
in_set String.[] c = false
in_set (String.◌∷◌ x String.[]) c = same_char x c
in_set (String.◌∷◌ x (String.◌∷◌ y String.[])) c = same_char x c || same_char y c
in_set (String.◌∷◌ x (String.◌∷◌ y (String.◌∷◌ z s))) c =
    let past = in_set s c in
    let next = in_set (String.◌∷◌ y (String.◌∷◌ z s)) c in
    if is_char b'-' y
    then leb (code x) (code c) && leb (code c) (code z) || past
    else same_char x c || next

-- What stands before the first `]`.
unfoldable pub before_bracket : String → Option String
before_bracket String.[] = none
before_bracket (String.◌∷◌ c s) =
    let rest : Option String = elim (before_bracket s) [
      | none ↦ none
      | some set ↦ some (String.◌∷◌ c set)
    ] in
    if is_char b']' c then some String.[] else rest

-- The set of a text that follows `[`, or `[!`; its first character may be `]`.
unfoldable pub bracket_set : String → Option String
unfolding before_bracket
bracket_set String.[] = none
bracket_set (String.◌∷◌ c s) = elim (before_bracket s) [
  | some set ↦ if is_char b']' c then some (String.◌∷◌ c set) else before_bracket (String.◌∷◌ c s)
  | none ↦ if is_char b']' c then none else before_bracket (String.◌∷◌ c s)
]

-- The item of a text that follows `[`, with the number of characters that it takes up there.
unfoldable pub bracket : String → Option (Item × ℕ)
unfolding bracket_set
bracket String.[] = none
bracket (String.◌∷◌ c s) =
    let negative : Option (Item × ℕ) = elim (bracket_set s) [
      | none ↦ none
      | some set ↦ some (chosen true set, count set + 2)
    ] in
    let positive : Option (Item × ℕ) = elim (bracket_set (String.◌∷◌ c s)) [
      | none ↦ none
      | some set ↦ some (chosen false set, count set + 1)
    ] in
    if is_char b'!' c then negative else positive

-- The items of a pattern, after as many characters as an earlier item has taken up.
unfoldable pub items_from : ℕ → String → List Item
unfolding bracket
items_from skip String.[] = []
items_from (suc skip) (String.◌∷◌ c s) = items_from skip s
items_from zero (String.◌∷◌ c s) =
    let rest = items_from zero s in
    let set : List Item = elim (bracket s) [
      | none ↦ literal c ∷ rest
      | some (item, n) ↦ item ∷ items_from n s
    ] in
    if is_char b'*' c
    then star ∷ rest
    else if is_char b'?' c
    then any_one ∷ rest
    else if is_char b'[' c
    then set
    else literal c ∷ rest

-- The rest of a pattern after `*`, at the text or at one of its ends.
unfoldable pub anywhere : (String → Bool) → String → Bool
anywhere p String.[] = p String.[]
anywhere p (String.◌∷◌ c s) = p (String.◌∷◌ c s) || anywhere p s

unfoldable pub matches : List Item → String → Bool
unfolding anywhere in_set
matches [] String.[] = true
matches [] (String.◌∷◌ c s) = false
matches (star ∷ items) s = anywhere (matches items) s
matches (any_one ∷ items) String.[] = false
matches (any_one ∷ items) (String.◌∷◌ c s) = matches items s
matches (literal d ∷ items) String.[] = false
matches (literal d ∷ items) (String.◌∷◌ c s) = same_char d c && matches items s
matches (chosen negated set ∷ items) String.[] = false
matches (chosen negated set ∷ items) (String.◌∷◌ c s) =
    (if negated then not (in_set set c) else in_set set c) && matches items s

-- fnmatch.fnmatch(s, pattern)
unfoldable pub fnmatch : String → String → Bool
unfolding items_from matches
fnmatch s pattern = matches (items_from zero pattern) s
