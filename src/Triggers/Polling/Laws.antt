-- ===== src/Triggers/Polling/Laws.antt =====
-- A poll fires once for a change.
use agentwire_cue.Prelude.{
  String, ◌≡◌, refl, ap, ◌∙◌, true, Option, none, some, List, [], ◌∷◌, arith, eq_iff, if_elim,
}
use agentwire_cue.Prelude.Assoc as Assoc
use agentwire_cue.Prelude.Assoc.{Assoc, get-set}
use agentwire_cue.Prelude.Int.{ℤ, ◌≤ℤ◌, int_ltb}
use agentwire_cue.Value.{Runtime, Fields}
use agentwire_cue.History.Peers.{Row}
use agentwire_cue.Triggers.Polling.{
  HistoryChangeTrigger, Change, key_of, peer_matches, last_seen, poll_row, poll,
}

below_not_above : (m n : ℤ) → m ≤ℤ n → int_ltb n m ≡ true → ⊥
below_not_above m n h k = ground (arith, h, k)

module _ {rt : Runtime} (t : HistoryChangeTrigger) (aliases : Assoc (Fields rt)) where
  -- No round that the snapshot knows goes back.
  abbrev pub IsBelow : Assoc ℤ → Assoc ℤ → Type 0
  IsBelow s s' = (key : String) → last_seen t aliases key s ≤ℤ last_seen t aliases key s'

  -- The snapshot knows the round of the row, if the row is watched.
  abbrev pub Knows : String → Row rt → Assoc ℤ → Type 0
  Knows name row s =
      peer_matches t aliases (key_of name row) ≡ true
      → row.last_round ≤ℤ last_seen t aliases (key_of name row) s

  abbrev pub KnowsAll : Assoc (Row rt) → Assoc ℤ → Type 0
  KnowsAll [] s = Unit {0}
  KnowsAll ((name, row) ∷ rows) s = Knows name row s × KnowsAll rows s

  set-IsBelow :
      (key : String) (n : ℤ) (s : Assoc ℤ)
      → last_seen t aliases key s ≤ℤ n
      → IsBelow s (Assoc.set key n s)
  set-IsBelow key n s h j = ground (arith, h, get-set key j n s, eq_iff key j)

  last_seen-set :
      (key : String) (n : ℤ) (s : Assoc ℤ) → n ≤ℤ last_seen t aliases key (Assoc.set key n s)
  last_seen-set key n s = ground (arith, get-set key key n s, eq_iff key key)

  poll_row-Knows :
      (name : String) (row : Row rt) (s : Assoc ℤ)
      → IsBelow s (poll_row t aliases name row s).1
        × Knows name row (poll_row t aliases name row s).1
  unfolding poll_row
  poll_row-Knows name row s =
      if_elim Sound (peer_matches t aliases (key_of name row))
        (λ _.
          if_elim Sound (int_ltb (last_seen t aliases (key_of name row) s) row.last_round)
            (λ less. (
              set-IsBelow (key_of name row) row.last_round s (ground (arith, less)),
              (λ _. last_seen-set (key_of name row) row.last_round s),
            ))
            (λ more. ((λ key. omega arith), (λ _. ground (arith, more)))))
        (λ other. ((λ key. omega arith), (λ watched. absurd (cc))))
    where
      Sound : Option Change × Assoc ℤ → Type 0
      Sound r = IsBelow s r.1 × Knows name row r.1

  poll-KnowsAll :
      (rows : Assoc (Row rt)) (s : Assoc ℤ)
      → IsBelow s (poll t aliases rows s).1 × KnowsAll rows (poll t aliases rows s).1
  unfolding poll
  poll-KnowsAll [] s = ((λ key. omega arith), tt)
  poll-KnowsAll ((name, row) ∷ rows) s =
      let s' = (poll_row t aliases name row s).1 in
      let (below, known) = poll-KnowsAll rows s' in
      let (below', known') = poll_row-Knows name row s in
      (
        (λ key. omega (arith, below key, below' key)),
        ((λ m. omega (arith, known' m, below (key_of name row))), known),
      )

  poll_row-nothing :
      (name : String) (row : Row rt) (s : Assoc ℤ)
      → Knows name row s
      → poll_row t aliases name row s ≡ (none, s)
  unfolding poll_row
  poll_row-nothing name row s h =
      if_elim (λ (r : Option Change × Assoc ℤ). r ≡ (none, s))
        (peer_matches t aliases (key_of name row))
        (λ watched.
          if_elim (λ (r : Option Change × Assoc ℤ). r ≡ (none, s))
            (int_ltb (last_seen t aliases (key_of name row) s) row.last_round)
            (λ less. absurd (
              below_not_above row.last_round (last_seen t aliases (key_of name row) s) (h watched)
                less))
            (λ _. refl))
        (λ _. refl)

  poll-nothing :
      (rows : Assoc (Row rt)) (s : Assoc ℤ) → KnowsAll rows s → poll t aliases rows s ≡ ([], s)
  unfolding poll poll_row
  poll-nothing [] s h = refl
  poll-nothing ((name, row) ∷ rows) s (h, k) =
      ap (λ (r : Option Change × Assoc ℤ). after r) (poll_row-nothing name row s h)
      ∙ ap (λ (r : List Change × Assoc ℤ). (r.0, r.1)) (poll-nothing rows s k)
    where
      after : Option Change × Assoc ℤ → List Change × Assoc ℤ
      after (change, s') =
          let (changes, s'') = poll t aliases rows s' in
          (elim change [ none ↦ changes | some c ↦ c ∷ changes ], s'')

  -- A second poll of the same peers fires nothing and leaves the snapshot alone; and no poll
  -- lowers a round of the snapshot.
  pub poll-again :
      (rows : Assoc (Row rt)) (s : Assoc ℤ)
      → poll t aliases rows (poll t aliases rows s).1 ≡ ([], (poll t aliases rows s).1)
        × IsBelow s (poll t aliases rows s).1
  poll-again rows s =
      let (below, known) = poll-KnowsAll rows s in
      (poll-nothing rows (poll t aliases rows s).1 known, below)
