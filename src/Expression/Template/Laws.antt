-- ===== src/Expression/Template/Laws.antt =====
-- What a template can read, and what it leaves alone.
use Prim.Native.String.{◌++◌}
use agentwire_cue.Prelude.{
  ℕ, zero, suc, String, Char, ◌≡◌, refl, false, arith, Option, none, some, if◌then◌else◌,
}
use agentwire_cue.Value.{Runtime, Fields}
use agentwire_cue.Outcome.{Result, ok, ◌>>=◌}
use agentwire_cue.Expression.Eval.{Objects}
use agentwire_cue.Expression.Eval.Isolation.{AgreeOnWhitelist, resolve_path-isolated}
use agentwire_cue.Expression.Lexer.{is_char}
use agentwire_cue.Expression.Lexicon.{Lexicon}
use agentwire_cue.Expression.Template.{split_dots, match_braces, fill, render_loop, render_template}

module _ {rt : Runtime} (lex : Lexicon rt) (py : Objects rt) where
  fill-isolated :
      (d e : Fields rt)
      → AgreeOnWhitelist d e
      → (group : String) → fill lex py d group ≡ fill lex py e group
  unfolding fill
  fill-isolated d e agree group =
      ground (arith, resolve_path-isolated py d e agree (split_dots group))

  render_match-isolated :
      (d e : Fields rt)
      → AgreeOnWhitelist d e
      → (c : Char) (s : String) (m : Option (String × ℕ))
      → ((skip : ℕ) → render_loop lex py d skip s ≡ render_loop lex py e skip s)
      → (let copied : Fields rt → Result rt String =
            λ env. render_loop lex py env zero s >>= λ t. ok (String.◌∷◌ c t) in
          let matched : Fields rt → Result rt String = λ env. elim m [
            | none ↦ copied env
            | some (group, length) ↦
                (fill lex py env group >>= λ v.
                render_loop lex py env length s >>= λ t. ok (v ++ t))
          ] in
          let round : Fields rt → Result rt String =
            λ env. if is_char b'{' c then matched env else copied env in
          round d ≡ round e)
  render_match-isolated d e agree c s none ih = rw (ih zero)
  render_match-isolated d e agree c s (some (group, length)) ih =
      simp (fill-isolated d e agree group, ih length, ih zero)

  render_loop-isolated :
      (d e : Fields rt)
      → AgreeOnWhitelist d e
      → (s : String) (skip : ℕ) → render_loop lex py d skip s ≡ render_loop lex py e skip s
  unfolding render_loop
  render_loop-isolated d e agree String.[] skip = refl
  render_loop-isolated d e agree (String.◌∷◌ c s) (suc skip) = render_loop-isolated d e agree s skip
  render_loop-isolated d e agree (String.◌∷◌ c s) zero =
      render_match-isolated d e agree c s (match_braces lex s) (render_loop-isolated d e agree s)

  -- A template reads its environment under the seven namespaces of the whitelist only.
  pub render_whitelist :
      (d e : Fields rt)
      → AgreeOnWhitelist d e
      → (s : String) → render_template lex py d s ≡ render_template lex py e s
  unfolding render_template
  render_whitelist d e agree s = render_loop-isolated d e agree s zero

-- A text with no opening brace.
abbrev pub BraceFree : String → Type 0
BraceFree String.[] = Unit
BraceFree (String.◌∷◌ c s) = (is_char b'{' c ≡ false) × BraceFree s

module _ {rt : Runtime} (lex : Lexicon rt) (py : Objects rt) (env : Fields rt) where
  -- A text without an opening brace is rendered as it stands.
  pub render-BraceFree : (s : String) → BraceFree s → render_template lex py env s ≡ ok s
  unfolding render_template
  render-BraceFree String.[] h = refl
  render-BraceFree (String.◌∷◌ c s) h = rw (render-BraceFree s h.1, h.0)
