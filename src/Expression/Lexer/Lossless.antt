-- ===== src/Expression/Lexer/Lossless.antt =====
-- `tokenize` reaches the end of every text, and loses nothing but whitespace.
use Prim.Native.String.{◌++◌}
use text.Mathlib.TextLemmas.{cons-append, nil-append, append_assoc}
use agentwire_cue.Prelude.{
  ℕ, zero, suc, ◌≤◌, ◌<◌, String, Char, code, ◌≡◌, ◌≢◌, ap, sym, ◌∙◌, Bool, true, false, none, some,
  [], ◌∷◌, ◌||◌, if◌then◌else◌, arith,
}
use agentwire_cue.Value.{Runtime}
use agentwire_cue.Outcome.{expression, unrecognized_token}
use agentwire_cue.Expression.Lexicon.{Lexicon}
use agentwire_cue.Expression.Reply.{
  ok, failed, out_of_fuel, ◌>>=◌, Yields, value, raised, Yields-if, Yields-bind,
  Yields-ne-out_of_fuel, Yields-map, Yields-ok,
}
use agentwire_cue.Expression.Parser.{Tokens}
use agentwire_cue.Expression.Lexer.{
  span, span1, is_char, Match, then_run, quoted, pair, number, match_token, token_loop, count,
  tokenize,
}

-- A match splits the text `s` into what was matched and the rest, which is shorter than `s`.
abbrev Splits : String → Match → Type 0
Splits s none = Unit
Splits s (some (tok, rest)) = (s ≡ tok ++ rest) × (count rest < count s)

branch {ℓ κ} :
    {A : Type ℓ} (P : A → Type κ) (b : Bool) {x y : A} → P x → P y → P (if b then x else y)
branch P true hx hy = hx
branch P false hx hy = hy

-- The match goes on behind a character that was matched before it.
Splits-cons :
    (c : Char) (s : String) (m : Match)
    → Splits s m
    → Splits
        (String.◌∷◌ c s)
        (elim m [ none ↦ none | some (run, rest) ↦ some (String.◌∷◌ c run, rest) ])
Splits-cons c s none h = tt
Splits-cons c s (some (run, rest)) h =
    (ap (String.◌∷◌ c) h.0 ∙ sym (cons-append c run rest), omega (arith, h.1))

Splits-one : (c : Char) (s : String) → Splits (String.◌∷◌ c s) (some (String.◌∷◌ c String.[], s))
Splits-one c s =
    (ap (String.◌∷◌ c) (sym (nil-append s)) ∙ sym (cons-append c String.[] s), omega arith)

-- What `span` leaves is no longer than the text.
abbrev SpanSplits : String → String × String → Type 0
SpanSplits s r = (s ≡ r.0 ++ r.1) × (count r.1 ≤ count s)

SpanSplits-if :
    (b : Bool) (c : Char) (s : String) (r : String × String)
    → SpanSplits s r
    → SpanSplits
        (String.◌∷◌ c s)
        (if b then (String.◌∷◌ c r.0, r.1) else (String.[], String.◌∷◌ c s))
SpanSplits-if true c s r h =
    (ap (String.◌∷◌ c) h.0 ∙ sym (cons-append c r.0 r.1), omega (arith, h.1))
SpanSplits-if false c s r h = (sym (nil-append (String.◌∷◌ c s)), omega arith)

span-SpanSplits : (p : Char → Bool) (s : String) → SpanSplits s (span p s)
unfolding span
span-SpanSplits p String.[] = (sym (nil-append String.[]), omega arith)
span-SpanSplits p (String.◌∷◌ c s) = SpanSplits-if (p c) c s (span p s) (span-SpanSplits p s)

span1-Splits : (p : Char → Bool) (s : String) → Splits s (span1 p s)
unfolding span1
span1-Splits p String.[] = tt
span1-Splits p (String.◌∷◌ c s) =
    let h = span-SpanSplits p s in
    branch (Splits (String.◌∷◌ c s)) (p c)
      (ap (String.◌∷◌ c) h.0 ∙ sym (cons-append c (span p s).0 (span p s).1), omega (arith, h.1)) tt

-- `then_run` after a match `front` of `s`, with `t` left.
then_run-extended :
    (c : Char) (front t s : String) (m : Match)
    → Splits t m
    → Splits s (some (front, String.◌∷◌ c t))
    → Splits s (elim m [
      | none ↦ some (front, String.◌∷◌ c t)
      | some (run, rest) ↦ some (front ++ String.◌∷◌ c run, rest)
    ])
then_run-extended c front t s none h k = k
then_run-extended c front t s (some (run, rest)) h k = (
  k.0
      ∙ ap (λ u. front ++ String.◌∷◌ c u) h.0
      ∙ ap (λ u. front ++ u) (sym (cons-append c run rest))
      ∙ sym (append_assoc front (String.◌∷◌ c run) rest),
  omega (arith, h.1, k.1),
)

then_run-Splits :
    (n : ℕ) (p : Char → Bool) (front t s : String)
    → Splits s (some (front, t))
    → Splits s (then_run n p front t)
unfolding then_run
then_run-Splits n p front String.[] s h = h
then_run-Splits n p front (String.◌∷◌ c t) s h =
    branch (Splits s) (is_char n c) (then_run-extended c front t s (span1 p t) (span1-Splits p t) h)
      h

quoted-Splits : (q : Char) (s : String) → Splits s (quoted q s)
unfolding quoted
quoted-Splits q String.[] = tt
quoted-Splits q (String.◌∷◌ c s) =
    branch (Splits (String.◌∷◌ c s)) (is_char (code q) c) (Splits-one c s)
      (Splits-cons c s (quoted q s) (quoted-Splits q s))

pair-Splits :
    (c : Char) (n : ℕ) (alone : Match) (s : String)
    → Splits (String.◌∷◌ c s) alone
    → Splits (String.◌∷◌ c s) (pair c n alone s)
unfolding pair
pair-Splits c n alone String.[] h = h
pair-Splits c n alone (String.◌∷◌ d s) h =
    branch (Splits (String.◌∷◌ c (String.◌∷◌ d s))) (is_char n d)
      (simp (cons-append, nil-append), omega arith) h

module _ {rt : Runtime} (lex : Lexicon rt) where
  number-Splits : (s : String) → Splits s (number lex s)
  unfolding number
  number-Splits s = go (span1 lex.is_digit s) (span1-Splits lex.is_digit s)
    where
      go :
          (m : Match)
          → Splits s m
          → Splits s
              (elim m [ none ↦ none | some (run, rest) ↦ then_run b'.' lex.is_digit run rest ])
      go none h = tt
      go (some (run, rest)) h = then_run-Splits b'.' lex.is_digit run rest s h

  match_token-Splits : (c : Char) (s : String) → Splits (String.◌∷◌ c s) (match_token lex c s)
  unfolding match_token
  match_token-Splits c s =
      let one = Splits-one c s in
      let split = Splits (String.◌∷◌ c s) in
      branch split (is_char b'-' c) (Splits-cons c s (number lex s) (number-Splits s)) (
        branch split (lex.is_digit c) (number-Splits (String.◌∷◌ c s)) (
          branch split (is_char 34 c || is_char 39 c)
            (Splits-cons c s (quoted c s) (quoted-Splits c s))
            (branch split (is_char b'=' c) (pair-Splits c b'=' none s tt) (
              branch split (is_char b'&' c) (pair-Splits c b'&' none s tt) (
                branch split (is_char b'|' c) (pair-Splits c b'|' none s tt) (
                  branch split (is_char b'!' c || is_char b'>' c || is_char b'<' c)
                    (pair-Splits c b'=' (some (String.◌∷◌ c String.[], s)) s one)
                    (branch split
                      (is_char b'(' c
                        || is_char b')' c
                        || is_char b',' c
                        || is_char b'.' c
                        || is_char b'$' c)
                      one (span1-Splits lex.is_word (String.◌∷◌ c s)))))))))

  -- `s` is the tokens `ts` in order, with nothing but whitespace between, before and behind them.
  pub data Spells : String → Tokens → Type 0 where
    stop : Spells String.[] []
    skip :
        {c : Char} {s : String} {ts : Tokens}
        → lex.is_space c ≡ true
        → Spells s ts
        → Spells (String.◌∷◌ c s) ts
    take :
        {s rest tok : String} {ts : Tokens}
        → s ≡ tok ++ rest
        → tok ≢ String.[]
        → Spells rest ts
        → Spells s (tok ∷ ts)

  token-ne-nil : (s tok rest : String) → s ≡ tok ++ rest → count rest < count s → tok ≢ String.[]
  token-ne-nil s tok rest e h nil =
      let same : s ≡ rest = e ∙ ap (λ t. t ++ rest) nil ∙ nil-append rest in
      absurd (omega (arith, ap count same))

  after_match :
      (f : ℕ) (c : Char) (s : String) (m : Match)
      → Splits (String.◌∷◌ c s) m
      → count s < f
      → ((t : String) → count t < f → Yields (Spells t) (token_loop lex f t))
      → Yields (Spells (String.◌∷◌ c s)) (elim m [
        | none ↦ failed (expression unrecognized_token)
        | some (tok, rest) ↦ token_loop lex f rest >>= λ ts. ok (tok ∷ ts)
      ])
  after_match f c s none split h ih = raised
  after_match f c s (some (tok, rest)) (e, shorter) h ih =
      Yields-bind (ih rest (omega arith))
        λ ts spelled. value (take e (token-ne-nil (String.◌∷◌ c s) tok rest e shorter) spelled)

  token_loop-Spells : (f : ℕ) (s : String) → count s < f → Yields (Spells s) (token_loop lex f s)
  unfolding token_loop
  token_loop-Spells zero s h = absurd (omega arith)
  token_loop-Spells (suc f) String.[] h = value stop
  token_loop-Spells (suc f) (String.◌∷◌ c s) h =
      Yields-if (lex.is_space c)
        (λ e. Yields-map (token_loop-Spells f s (omega arith)) (λ ts spelled. skip e spelled))
        (after_match f c s (match_token lex c s) (match_token-Splits c s) (omega arith)
          (token_loop-Spells f))

  -- On every text `tokenize` ends, with tokens or with its exception.
  pub tokenize_total : (s : String) → tokenize lex s ≢ out_of_fuel
  unfolding tokenize
  tokenize_total s = Yields-ne-out_of_fuel (token_loop-Spells (suc (count s)) s (omega arith))

  -- Tokens that `tokenize` returns are not empty and spell its text: written one after the other,
  -- with only whitespace between them, they are the text again.
  pub tokenize_lossless : (s : String) (ts : Tokens) → tokenize lex s ≡ ok ts → Spells s ts
  unfolding tokenize
  tokenize_lossless s ts e = Yields-ok (token_loop-Spells (suc (count s)) s (omega arith)) e
