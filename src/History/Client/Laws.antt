-- ===== src/History/Client/Laws.antt =====
-- What a lookup returns, and when it asks the gateway.
use mathlib.Core.Path.{subst}
use agentwire_cue.Prelude.{
  ◌+◌, String, ◌≡◌, refl, sym, ap, ◌∙◌, ◌⊎◌, inl, inr, Bool, true, false, Option, none, some, List,
  [], ◌∷◌, arith, if◌then◌else◌, if_elim,
}
use agentwire_cue.Prelude.Int.{ℤ}
use agentwire_cue.Value.{Runtime, Value, is_none}
use agentwire_cue.Outcome.{Result, ok, err}
use agentwire_cue.History.Cache.{
  Key, Entry, Gateway, HistoryClient, same_key, find, store, is_stale, delete, check_entry,
  get_cached, set_cached,
}
use agentwire_cue.History.Client.{
  resolve_alias, messages_key, cached_or, lookup, fetch_messages, list_messages,
}

module _ {rt : Runtime} where
  find-store :
      (k : Key rt) (e : Entry rt) (c : List (Key rt × Entry rt))
      → same_key k k ≡ true
      → find k (store k e c) ≡ some e
  unfolding find store
  find-store k e [] h = ground (arith, h)
  find-store k e ((j, f) ∷ c) h = ground (arith, h, find-store k e c h)

  -- The client after one more reading of the clock.
  abbrev pub after_read : HistoryClient rt → HistoryClient rt
  after_read c = record c { reads = c.reads + 1 }

  module _ (gateway : Gateway rt) where
    -- The cache holds the value for the key, and it is not older than the time to live.
    abbrev pub Hit : Key rt → HistoryClient rt → Value rt → Type 0
    Hit k c v =
        (ts : ℤ) × (find k c.cache ≡ some (ts, v))
        × (is_stale c (gateway.time c.reads) ts ≡ false)
        × (is_none v ≡ false)

    -- A lookup ends with what the cache holds, and then makes no call; or it ends as a fetch does, in a client with the same aliases and as many calls so far.
    abbrev pub Looks :
        Key rt
        → (HistoryClient rt → Result rt (Value rt) × HistoryClient rt)
        → HistoryClient rt
        → Result rt (Value rt) × HistoryClient rt
        → Type 0
    Looks k fetch c r =
        ((v : Value rt) × Hit k c v × (r ≡ (ok v, after_read c)))
        ⊎ ((d : HistoryClient rt) × (d.calls ≡ c.calls) × (d.aliases ≡ c.aliases) × (r ≡ fetch d))

    cached_or-Looks :
        (k : Key rt) (fetch : HistoryClient rt → Result rt (Value rt) × HistoryClient rt)
        (c : HistoryClient rt)
        → Looks k fetch c (cached_or gateway k fetch c)
    unfolding cached_or get_cached
    cached_or-Looks k fetch c = go (find k c.cache) refl
      where
        go :
            (o : Option (Entry rt))
            → find k c.cache ≡ o
            → Looks k fetch c (
                let (cached, c') = check_entry gateway k o c in
                if is_none cached then fetch c' else (ok cached, c'))
        go none h = inr (c, refl, refl, refl)
        go (some (ts, v)) h =
            if_elim
              (λ (r : Value rt × HistoryClient rt).
                Looks k fetch c (if is_none r.0 then fetch r.1 else (ok r.0, r.1)))
              (is_stale c (gateway.time c.reads) ts)
              (λ _. inr (record (after_read c) { cache = delete k c.cache }, refl, refl, refl))
              (λ fresh.
                if_elim (Looks k fetch c) (is_none v) (λ _. inr (after_read c, refl, refl, refl))
                  (λ there. inl (v, (ts, h, fresh, there), refl)))

    cached_or-hit :
        (k : Key rt) (fetch : HistoryClient rt → Result rt (Value rt) × HistoryClient rt) (ts : ℤ)
        (v : Value rt) (c : HistoryClient rt)
        → find k c.cache ≡ some (ts, v)
        → is_stale c (gateway.time c.reads) ts ≡ false
        → is_none v ≡ false
        → cached_or gateway k fetch c ≡ (ok v, after_read c)
    unfolding cached_or get_cached check_entry
    cached_or-hit k fetch ts v c h fresh there =
        ap (λ (o : Option (Entry rt)). choose (check_entry gateway k o c)) h
        ∙ ap
            (λ (b : Bool). choose (
              if b
              then (Value.none, record (after_read c) { cache = delete k c.cache })
              else (v, after_read c)))
            fresh
        ∙ ap (λ (b : Bool). if b then fetch (after_read c) else (ok v, after_read c)) there
      where
        choose : Value rt × HistoryClient rt → Result rt (Value rt) × HistoryClient rt
        choose r = if is_none r.0 then fetch r.1 else (ok r.0, r.1)

    module _ (peer : String) (limit since_round target : Value rt) (k : Key rt) where
      -- The lookup of messages, from the target and the key that its arguments come to.
      abbrev pub fetch : HistoryClient rt → Result rt (Value rt) × HistoryClient rt
      fetch = fetch_messages gateway k peer target limit since_round

      list_messages-cached_or :
          (c : HistoryClient rt)
          → resolve_alias peer c.aliases ≡ ok target
          → messages_key gateway target limit since_round ≡ ok k
          → list_messages gateway peer limit since_round c ≡ cached_or gateway k fetch c
      unfolding list_messages lookup
      list_messages-cached_or c h e =
          ap (λ (r : Result rt (Value rt)). go r c) h
          ∙ ap
              (λ (r : Result rt (Key rt)).
                lookup gateway r (λ j. fetch_messages gateway j peer target limit since_round) c)
              e
        where
          go : Result rt (Value rt) → HistoryClient rt → Result rt (Value rt) × HistoryClient rt
          go r c = elim r [
            | err x ↦ (err x, c)
            | ok t ↦
                lookup gateway (messages_key gateway t limit since_round)
                  (λ j. fetch_messages gateway j peer t limit since_round) c
          ]

      -- If the peer resolves to a target and the arguments to a key, list_messages returns what
      -- the cache holds for the key and is not older than the time to live, and makes no call; or
      -- it ends as the fetch from the gateway does, in a client with the same aliases and no call
      -- more.
      pub list_messages-Looks :
          (c : HistoryClient rt)
          → resolve_alias peer c.aliases ≡ ok target
          → messages_key gateway target limit since_round ≡ ok k
          → Looks k fetch c (list_messages gateway peer limit since_round c)
      list_messages-Looks c h e =
          subst (Looks k fetch c) (sym (list_messages-cached_or c h e)) (cached_or-Looks k fetch c)

      -- If the peer resolves to a target and the arguments to a key that equals itself, then after
      -- a value that is not None was stored for the key, and while it is not older than the time
      -- to live, list_messages returns it and changes nothing but the number of clock readings.
      pub list_messages-again :
          (v : Value rt) (c : HistoryClient rt)
          → resolve_alias peer c.aliases ≡ ok target
          → messages_key gateway target limit since_round ≡ ok k
          → same_key k k ≡ true
          → is_none v ≡ false
          → is_stale c (gateway.time (c.reads + 1)) (gateway.time c.reads) ≡ false
          → list_messages gateway peer limit since_round (set_cached gateway k v c)
            ≡ (ok v, after_read (set_cached gateway k v c))
      unfolding set_cached is_stale
      list_messages-again v c h e same there fresh =
          list_messages-cached_or (set_cached gateway k v c) h e
          ∙ cached_or-hit k fetch (gateway.time c.reads) v (set_cached gateway k v c)
              (find-store k (gateway.time c.reads, v) c.cache same) fresh there
