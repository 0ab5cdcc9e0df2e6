-- ===== src/A2a/Cards.antt =====
-- `PeerCardCache` of core/a2a_client.py.
pub mod Laws
use Prim.Native.String.{◌++◌}
use agentwire_cue.Prelude.{
  ℕ, ◌+◌, String, Bool, true, false, Option, none, some, [], ◌&&◌, if◌then◌else◌,
}
use agentwire_cue.Prelude.Assoc as Assoc
use agentwire_cue.Prelude.Assoc.{Assoc}
use agentwire_cue.Prelude.Int.{ℤ, pos, ◌-ℤ◌, int_ltb}
use agentwire_cue.Value.{Runtime, Value, Fields, bool, int, float, str, list, dict, end, field}
use agentwire_cue.Value.Dict
use agentwire_cue.Outcome.{
  Exn, Result, ok, err, key_error, conversion_error, type_error, python_error, ◌>>=◌,
}
use agentwire_cue.Expression.Lexer.{is_char}
use agentwire_cue.Expression.Template.{rstrip}
use agentwire_cue.Statechart.Action.{index}
use agentwire_cue.Sandbox.Path.{FileSystem, is_abs, join}
use agentwire_cue.Sandbox.Check.{is_passed}
use agentwire_cue.Sandbox.Surface.{check_surface_path}

-- What the cache uses and does not implement.
pub record Net (rt : Runtime) : Type 0 where
  pub fs : FileSystem
  -- the n-th reading of `now_ms()`
  pub time : ℕ → ℕ
  -- the n-th request for a card, at a url: the body of an answer with status 200, None for another
  -- status and for aiohttp's exceptions, which are caught; or an exception that is not caught
  pub fetch : String → ℕ → Result rt (Value rt)
  -- json.loads and json.dumps; `none` if they raise
  pub loads : String → Option (Value rt)
  pub dumps : Value rt → Option String
  -- read_text raises no OSError; mkdir and write_text raise none; unlink raises none
  pub can_read : String → Bool
  pub can_write : String → Bool
  pub can_unlink : String → Bool

-- The fields of a PeerCardCache that do not change.
pub record PeerCardCache : Type 0 where
  pub cache_dir : String
  pub ttl_ms : ℤ

-- `_memory`, the files by their paths, and the numbers of clock readings and requests so far.
pub record Store (rt : Runtime) : Type 0 where
  pub memory : Assoc (Fields rt)
  pub disk : Assoc String
  pub reads : ℕ
  pub requests : ℕ

-- cache_dir / f"{peer_id}.json", as a text; an absolute right side stands alone
unfoldable pub cache_path : PeerCardCache → String → String
unfolding is_abs join
cache_path cache peer_id =
    let name = peer_id ++ ".json" in if is_abs name then name else join cache.cache_dir name

-- f"{peer_url.rstrip('/')}/.well-known/agent.json"
unfoldable pub card_url : String → String
unfolding rstrip
card_url peer_url = rstrip (is_char b'/') peer_url ++ "/.well-known/agent.json"

module _ {rt : Runtime} where
  -- An integer, or a float, of what Python takes as a number.
  unfoldable pub float_of : Value rt → Result rt rt.Float
  float_of (bool b) = elim (rt.of_int (if b then pos 1 else pos 0)) [
    | none ↦ err conversion_error
    | some x ↦ ok x
  ]
  float_of (int n) = elim (rt.of_int n) [ none ↦ err conversion_error | some x ↦ ok x ]
  float_of (float x) = ok x
  float_of v = err type_error

  -- n - v
  unfoldable pub int_minus : ℤ → Value rt → Result rt (Value rt)
  int_minus n (bool b) = ok (int (n -ℤ (if b then pos 1 else pos 0)))
  int_minus n (int m) = ok (int (n -ℤ m))
  int_minus n (float x) = elim (rt.int_sub_float n x) [
    | none ↦ err conversion_error
    | some y ↦ ok (float y)
  ]
  int_minus n v = err type_error

  -- v < w, for a number v; two ints are compared as ints
  unfoldable pub less : Value rt → Value rt → Result rt Bool
  unfolding float_of
  less (int m) (int n) = ok (int_ltb m n)
  less (int m) (bool b) = ok (int_ltb m (if b then pos 1 else pos 0))
  less v w = do x ← float_of v; y ← float_of w; ok (rt.float_lt x y)

  -- One more reading of the clock.
  unfoldable pub tick : Store rt → Store rt
  tick s = record s { reads = s.reads + 1 }

  abbrev pub now : Net rt → Store rt → ℤ
  now net s = pos (net.time s.reads)

  -- now_ms() - mem['fetched_at_ms'] < mem['ttl_ms']
  unfoldable pub is_fresh : ℤ → Fields rt → Result rt Bool
  unfolding index int_minus less
  is_fresh n mem = do
    fetched ← index (dict mem) "fetched_at_ms"
    age ← int_minus n fetched
    ttl ← index (dict mem) "ttl_ms"
    less age ttl

  -- now_ms() - data.get('fetched_at_ms', 0) < data.get('ttl_ms', 0)
  unfoldable pub is_fresh_file : ℤ → Fields rt → Result rt Bool
  unfolding int_minus less
  is_fresh_file n doc = do
    age ← int_minus n (Dict.get_or "fetched_at_ms" (int (pos 0)) doc)
    less age (Dict.get_or "ttl_ms" (int (pos 0)) doc)

  module _ (net : Net rt) (cache : PeerCardCache) where
    -- The entry that `_write_back` stores.
    unfoldable pub entry : String → Value rt → ℤ → Fields rt
    entry peer_id card n =
        field "peer_id" (str peer_id) (
          field "fetched_at_ms" (int n) (field "ttl_ms" (int cache.ttl_ms) (field "card" card end)))

    -- The writing of the file, which the sandbox and an OSError keep from happening.
    unfoldable pub write_file : String → Fields rt → Store rt → Result rt (Unit {0}) × Store rt
    unfolding cache_path check_surface_path
    write_file peer_id doc s =
        let path = cache_path cache peer_id in
        let written : Result rt (Unit {0}) × Store rt = elim (net.dumps (dict doc)) [
          | none ↦ (err type_error, s)
          | some text ↦ (ok tt, record s { disk = Assoc.set path text s.disk })
        ] in
        if is_passed (check_surface_path net.fs path "peer" none (some peer_id) [] [])
          && net.can_write path
        then written
        else (ok tt, s)

    unfoldable pub write_back : String → Value rt → Store rt → Result rt (Unit {0}) × Store rt
    unfolding entry write_file tick
    write_back peer_id card s =
        let doc = entry peer_id card (now net s) in
        write_file peer_id doc (record (tick s) { memory = Assoc.set peer_id doc s.memory })

    -- Steps 3 and 4 of `get`.
    unfoldable pub keep_card :
        String → Result rt (Value rt) → Store rt → Result rt (Value rt) × Store rt
    unfolding write_back
    keep_card peer_id (err e) s = (err e, s)
    keep_card peer_id (ok Value.none) s = (ok Value.none, s)
    keep_card peer_id (ok card) s =
        let (written, s') = write_back peer_id card s in (written >>= λ _. ok card, s')

    unfoldable pub fetch_card : String → String → Store rt → Result rt (Value rt) × Store rt
    unfolding keep_card card_url
    fetch_card peer_id peer_url s =
        keep_card peer_id (net.fetch (card_url peer_url) s.requests)
          (record s { requests = s.requests + 1 })

    -- A fresh entry of the file, which is kept in memory before its card is asked for.
    unfoldable pub use_file :
        String → String → Fields rt → Store rt → Result rt (Value rt) × Store rt
    unfolding fetch_card
    use_file peer_id peer_url doc s =
        let kept : Store rt = record s { memory = Assoc.set peer_id doc s.memory } in
        let again = fetch_card peer_id peer_url kept in
        elim (Dict.get "card" doc) [ none ↦ again | some card ↦ (ok card, kept) ]

    -- What the file holds, once it is read; a value that is no dict has no `get`.
    unfoldable pub check_file :
        String → String → Option (Value rt) → Store rt → Result rt (Value rt) × Store rt
    unfolding is_fresh_file tick fetch_card use_file
    check_file peer_id peer_url none s = fetch_card peer_id peer_url s
    check_file peer_id peer_url (some (dict doc)) s =
        let used = use_file peer_id peer_url doc (tick s) in
        let fetched = fetch_card peer_id peer_url (tick s) in
        elim (is_fresh_file (now net s) doc) [
          | err e ↦ (err e, tick s)
          | ok fresh ↦ if fresh then used else fetched
        ]
    check_file peer_id peer_url (some v) s = (err python_error, tick s)

    -- Step 2.
    unfoldable pub get_from_disk : String → String → Store rt → Result rt (Value rt) × Store rt
    unfolding cache_path check_file fetch_card
    get_from_disk peer_id peer_url s =
        let path = cache_path cache peer_id in
        let fetched = fetch_card peer_id peer_url s in
        elim (Assoc.get path s.disk) [
          | none ↦ fetched
          | some text ↦
              if net.can_read path then check_file peer_id peer_url (net.loads text) s else fetched
        ]

    -- Step 1, of an entry that is there: an empty dict is false.
    unfoldable pub get_from_memory :
        String → String → Fields rt → Store rt → Result rt (Value rt) × Store rt
    unfolding is_fresh tick get_from_disk index
    get_from_memory peer_id peer_url end s = get_from_disk peer_id peer_url s
    get_from_memory peer_id peer_url (field k v d) s =
        let next = get_from_disk peer_id peer_url (tick s) in
        elim (is_fresh (now net s) (field k v d)) [
          | err e ↦ (err e, tick s)
          | ok fresh ↦ if fresh then (index (dict (field k v d)) "card", tick s) else next
        ]

    unfoldable pub get : String → String → Store rt → Result rt (Value rt) × Store rt
    unfolding get_from_memory get_from_disk
    get peer_id peer_url s =
        let missing = get_from_disk peer_id peer_url s in
        elim (Assoc.get peer_id s.memory) [
          | none ↦ missing
          | some mem ↦ get_from_memory peer_id peer_url mem s
        ]

    unfoldable pub invalidate : String → Store rt → Store rt
    unfolding cache_path
    invalidate peer_id s =
        let path = cache_path cache peer_id in
        record s {
          memory = Assoc.remove peer_id s.memory;
          disk = if net.can_unlink path then Assoc.remove path s.disk else s.disk;
        }
