-- ===== src/A2a/Cards/Laws.antt =====
-- What the cache of peer cards keeps, and where it writes.
use agentwire_cue.Prelude.{
  ◌+◌, String, ◌≡◌, refl, ◌∙◌, ap, sym, Bool, true, false, Option, none, some, [], ◌&&◌, ◌==◌,
  eq_iff, arith, if◌then◌else◌, if_elim, option_elim,
}
use mathlib.Core.Path.{subst}
use agentwire_cue.Prelude.Assoc as Assoc
use agentwire_cue.Prelude.Assoc.{get-set}
use agentwire_cue.Prelude.Int.{ℤ, pos, ◌-ℤ◌, int_ltb}
use agentwire_cue.Value.{Runtime, Value, Fields, dict, end, field}
use agentwire_cue.Value.Dict
use agentwire_cue.Outcome.{Result, ok, err, result_elim}
use agentwire_cue.Sandbox.Check.{is_passed}
use agentwire_cue.Sandbox.Surface.{check_surface_path}
use agentwire_cue.Statechart.Action.{index}
use agentwire_cue.A2a.Cards.{
  Net, PeerCardCache, Store, cache_path, int_minus, less, tick, now, is_fresh, is_fresh_file,
  card_url, entry, write_file, write_back, keep_card, fetch_card, use_file, check_file,
  get_from_disk, get_from_memory, get,
}

other_path : (a b c : Bool) → a && b ≡ false → b && c ≡ true → a ≡ false
other_path a b c h k = ground arith

module _ {rt : Runtime} (net : Net rt) (cache : PeerCardCache) (peer_id : String) where
  -- The sandbox takes the path as the card file of the peer.
  abbrev is_peer_path : Bool
  is_peer_path =
      is_passed
        (check_surface_path net.fs (cache_path cache peer_id) "peer" none (some peer_id) [] [])

  -- The file `p` is the peer's card file, and the sandbox takes it as one.
  abbrev pub is_card_file : String → Bool
  is_card_file p = cache_path cache peer_id == p && is_peer_path

  module _ (p : String) (other : is_card_file p ≡ false) where
    -- The file `p` is as it was in `s`.
    abbrev Unchanged : {A : Type 0} → Store rt → A × Store rt → Type 0
    Unchanged s r = Assoc.get p r.1.disk ≡ Assoc.get p s.disk

    write_file-disk :
        (doc : Fields rt) (s : Store rt) → Unchanged s (write_file net cache peer_id doc s)
    unfolding write_file
    write_file-disk doc s =
        if_elim (Unchanged s) (is_peer_path && net.can_write (cache_path cache peer_id))
          (λ allowed. option_elim (Unchanged s) (net.dumps (dict doc)) refl λ text _.
            get-set (cache_path cache peer_id) p text s.disk
            ∙ ap (λ b. if b then some text else Assoc.get p s.disk)
                (other_path (cache_path cache peer_id == p) is_peer_path
                  (net.can_write (cache_path cache peer_id)) other allowed))
          (λ _. refl)

    write_back-disk :
        (card : Value rt) (s : Store rt)
        → Assoc.get p (write_back net cache peer_id card s).1.disk ≡ Assoc.get p s.disk
    unfolding write_back tick
    write_back-disk card s =
        write_file-disk (entry net cache peer_id card (now net s)) (record (tick s) {
          memory = Assoc.set peer_id (entry net cache peer_id card (now net s)) s.memory;
        })

    keep_card-disk :
        (r : Result rt (Value rt)) (s : Store rt)
        → Assoc.get p (keep_card net cache peer_id r s).1.disk ≡ Assoc.get p s.disk
    unfolding keep_card
    keep_card-disk (err e) s = refl
    keep_card-disk (ok Value.none) s = refl
    keep_card-disk (ok card) s = write_back-disk card s

    fetch_card-disk :
        (url : String) (s : Store rt)
        → Assoc.get p (fetch_card net cache peer_id url s).1.disk ≡ Assoc.get p s.disk
    unfolding fetch_card
    fetch_card-disk url s =
        keep_card-disk (net.fetch (card_url url) s.requests)
          (record s { requests = s.requests + 1 })

    use_file-disk :
        (url : String) (doc : Fields rt) (s : Store rt)
        → Unchanged s (use_file net cache peer_id url doc s)
    unfolding use_file
    use_file-disk url doc s =
        option_elim (Unchanged s) (Dict.get "card" doc)
          (fetch_card-disk url (record s { memory = Assoc.set peer_id doc s.memory }))
          (λ card _. refl)

    check_file-disk :
        (url : String) (v : Option (Value rt)) (s : Store rt)
        → Unchanged s (check_file net cache peer_id url v s)
    unfolding check_file tick
    check_file-disk url none s = fetch_card-disk url s
    check_file-disk url (some (dict doc)) s =
        result_elim (Unchanged s) (is_fresh_file (now net s) doc) (λ e. refl)
          λ fresh _.
            if_elim (Unchanged s) fresh (λ _. use_file-disk url doc (tick s))
              (λ _. fetch_card-disk url (tick s))
    check_file-disk url (some v) s = refl

    get_from_disk-disk :
        (url : String) (s : Store rt) → Unchanged s (get_from_disk net cache peer_id url s)
    unfolding get_from_disk
    get_from_disk-disk url s =
        option_elim (Unchanged s) (Assoc.get (cache_path cache peer_id) s.disk)
          (fetch_card-disk url s)
          λ text _.
            if_elim (Unchanged s) (net.can_read (cache_path cache peer_id))
              (λ _. check_file-disk url (net.loads text) s) (λ _. fetch_card-disk url s)

    get_from_memory-disk :
        (url : String) (mem : Fields rt) (s : Store rt)
        → Unchanged s (get_from_memory net cache peer_id url mem s)
    unfolding get_from_memory tick
    get_from_memory-disk url end s = get_from_disk-disk url s
    get_from_memory-disk url (field k v d) s =
        result_elim (Unchanged s) (is_fresh (now net s) (field k v d)) (λ e. refl)
          λ fresh _. if_elim (Unchanged s) fresh (λ _. refl) (λ _. get_from_disk-disk url (tick s))

    -- No call of get changes a file but the card file of its peer, and that only if the sandbox
    -- takes the path as one of the surface `peer`.
    pub get-disk :
        (url : String) (s : Store rt)
        → Assoc.get p (get net cache peer_id url s).1.disk ≡ Assoc.get p s.disk
    unfolding get
    get-disk url s =
        option_elim (Unchanged s) (Assoc.get peer_id s.memory) (get_from_disk-disk url s)
          λ mem _. get_from_memory-disk url mem s

  write_file-kept :
      (doc : Fields rt) (s : Store rt)
      → ((write_file net cache peer_id doc s).1.memory ≡ s.memory)
        × ((write_file net cache peer_id doc s).1.reads ≡ s.reads)
  unfolding write_file
  write_file-kept doc s = ground arith

  write_back-memory :
      (card : Value rt) (s : Store rt)
      → Assoc.get peer_id (write_back net cache peer_id card s).1.memory
        ≡ some (entry net cache peer_id card (now net s))
  unfolding write_back tick
  write_back-memory card s =
      let doc = entry net cache peer_id card (now net s) in
      ap (Assoc.get peer_id)
        (write_file-kept doc (record (tick s) { memory = Assoc.set peer_id doc s.memory })).0
      ∙ ground (arith, get-set peer_id peer_id doc s.memory, eq_iff peer_id peer_id)

  write_back-reads :
      (card : Value rt) (s : Store rt) → (write_back net cache peer_id card s).1.reads ≡ s.reads + 1
  unfolding write_back tick
  write_back-reads card s =
      let doc = entry net cache peer_id card (now net s) in
      (write_file-kept doc (record (tick s) { memory = Assoc.set peer_id doc s.memory })).1

  entry-fresh :
      (card : Value rt) (n m : ℤ)
      → int_ltb (n -ℤ m) cache.ttl_ms ≡ true
      → is_fresh n (entry net cache peer_id card m) ≡ ok true
  unfolding is_fresh entry index int_minus less Dict.get
  entry-fresh card n m h = ground (arith, h)

  get_from_memory-entry :
      (url : String) (card : Value rt) (n : ℤ) (s : Store rt)
      → int_ltb (now net s -ℤ n) cache.ttl_ms ≡ true
      → get_from_memory net cache peer_id url (entry net cache peer_id card n) s ≡ (ok card, tick s)
  unfolding get_from_memory entry index Dict.get
  get_from_memory-entry url card n s h =
      if_elim (λ r. r ≡ (ok card, tick s)) (int_ltb (now net s -ℤ n) cache.ttl_ms) (λ _. refl)
        (λ e. absurd (cc))

  -- A card that was written back is what get returns while it is younger than its time to live:
  -- from memory, with no request and no change but a reading of the clock.
  pub get-write_back :
      (url : String) (card : Value rt) (s : Store rt)
      → int_ltb (pos (net.time (s.reads + 1)) -ℤ pos (net.time s.reads)) cache.ttl_ms ≡ true
      → get net cache peer_id url (write_back net cache peer_id card s).1
        ≡ (ok card, tick (write_back net cache peer_id card s).1)
  unfolding get
  get-write_back url card s h =
      let after = (write_back net cache peer_id card s).1 in
      let fresh : int_ltb (now net after -ℤ now net s) cache.ttl_ms ≡ true =
        subst (λ n. int_ltb (pos (net.time n) -ℤ now net s) cache.ttl_ms ≡ true)
          (sym (write_back-reads card s)) h in
      subst
        (λ o.
          elim o [
            | none ↦ get_from_disk net cache peer_id url after
            | some mem ↦ get_from_memory net cache peer_id url mem after
          ]
          ≡ (ok card, tick after))
        (sym (write_back-memory card s)) (get_from_memory-entry url card (now net s) after fresh)
