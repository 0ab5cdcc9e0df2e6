-- ===== src/History/Cache.antt =====
-- `HistoryClient` of core/history_client.py: its state, its cache, and its calls of the gateway.
use agentwire_cue.Prelude.{
  ℕ, ◌+◌, ◌*◌, String, Bool, true, false, Option, none, some, List, [], ◌∷◌, ◌&&◌, ◌==◌,
  if◌then◌else◌,
}
use agentwire_cue.Prelude.Assoc.{Assoc}
use agentwire_cue.Prelude.Int.{ℤ, pos, negsuc, ◌-ℤ◌, int_eq, int_ltb}
use agentwire_cue.Value.{
  Runtime, Value, Fields, bool, int, float, str, list, dict, obj, end, truthy,
}
use agentwire_cue.Outcome.{Result, ok, err, type_error, python_error, ◌>>=◌}
use agentwire_cue.Statechart.Action.{get_field}
use agentwire_cue.Permission.Checks.{is_in}
use agentwire_cue.A2a.Aliases.{Secrets}

-- A part of a cache key; True and False are 1 and 0.
pub data Atom (rt : Runtime) : Type 0 where
  nothing : Atom rt
  number : ℤ → Atom rt
  decimal : rt.Float → Atom rt
  text : String → Atom rt

pub data Key (rt : Runtime) : Type 0 where
  messages : Atom rt → Atom rt → Atom rt → Key rt
  peers : Key rt
  round : Atom rt → Atom rt → Key rt

-- A time, in microseconds, and the value that was stored then.
abbrev pub Entry : Runtime → Type 0
Entry rt = ℤ × Value rt

-- What the client uses and does not implement.
pub record Gateway (rt : Runtime) : Type 0 where
  pub secrets : Secrets rt
  -- time.time() at its n-th reading, in microseconds
  pub time : ℕ → ℤ
  -- the JSON that the n-th call answers a method, its parameters and the token of its header with; what urllib and json raise is an error
  pub call : String → Fields rt → Value rt → ℕ → Result rt (Value rt)
  -- int(s, 16); `none` is a ValueError
  pub parse_hex : String → Option ℤ

pub record HistoryClient (rt : Runtime) : Type 0 where
  pub token : Value rt
  pub ttl : ℤ
  pub cache : List (Key rt × Entry rt)
  pub aliases : Assoc (Fields rt)
  -- the numbers of clock readings and of calls so far
  pub reads : ℕ
  pub calls : ℕ

module _ {rt : Runtime} where
  -- A value as a part of a key; lists and dicts have no hash, and no object stands here.
  unfoldable pub atom_of : Value rt → Result rt (Atom rt)
  atom_of Value.none = ok nothing
  atom_of (bool b) = ok (number (if b then pos 1 else pos 0))
  atom_of (int n) = ok (number n)
  atom_of (float x) = ok (decimal x)
  atom_of (str s) = ok (text s)
  atom_of (list vs) = err type_error
  atom_of (dict d) = err type_error
  atom_of (obj o) = err python_error

  -- a == b; an integer and a float are compared as floats
  unfoldable pub same_atom : Atom rt → Atom rt → Bool
  same_atom nothing nothing = true
  same_atom (number m) (number n) = int_eq m n
  same_atom (decimal x) (decimal y) = rt.float_eq x y
  same_atom (number m) (decimal y) = elim (rt.of_int m) [ none ↦ false | some x ↦ rt.float_eq x y ]
  same_atom (decimal x) (number n) = elim (rt.of_int n) [ none ↦ false | some y ↦ rt.float_eq x y ]
  same_atom (text s) (text t) = s == t
  same_atom a b = false

  unfoldable pub same_key : Key rt → Key rt → Bool
  unfolding same_atom
  same_key (messages a b c) (messages x y z) = same_atom a x && same_atom b y && same_atom c z
  same_key peers peers = true
  same_key (round a b) (round x y) = same_atom a x && same_atom b y
  same_key k j = false

  -- self._cache.get(key), del self._cache[key] and self._cache[key] = entry
  unfoldable pub find : Key rt → List (Key rt × Entry rt) → Option (Entry rt)
  unfolding same_key
  find k [] = none
  find k ((j, e) ∷ c) = let rest = find k c in if same_key j k then some e else rest

  unfoldable pub delete : Key rt → List (Key rt × Entry rt) → List (Key rt × Entry rt)
  unfolding same_key
  delete k [] = []
  delete k ((j, e) ∷ c) = let rest = delete k c in if same_key j k then rest else (j, e) ∷ rest

  unfoldable pub store : Key rt → Entry rt → List (Key rt × Entry rt) → List (Key rt × Entry rt)
  unfolding same_key
  store k e [] = (k, e) ∷ []
  store k e ((j, f) ∷ c) =
      let rest = store k e c in if same_key j k then (j, e) ∷ c else (j, f) ∷ rest

  unfoldable pub clear : HistoryClient rt → HistoryClient rt
  clear c = record c { cache = [] }

  -- `invalidate`, and `set_aliases`
  unfoldable pub invalidate : HistoryClient rt → HistoryClient rt
  unfolding clear
  invalidate c = clear c

  unfoldable pub set_aliases : Assoc (Fields rt) → HistoryClient rt → HistoryClient rt
  unfolding clear
  set_aliases aliases c = clear (record c { aliases = aliases })

  -- time.time() - ts > self.ttl
  unfoldable pub is_stale : HistoryClient rt → ℤ → ℤ → Bool
  is_stale c now ts =
      let limit : ℤ = elim c.ttl [
        | pos n ↦ pos (n * 1000000)
        | negsuc n ↦ negsuc (n * 1000000 + 999999)
      ] in
      int_ltb limit (now -ℤ ts)

  module _ (gateway : Gateway rt) where
    unfoldable pub check_entry :
        Key rt → Option (Entry rt) → HistoryClient rt → Value rt × HistoryClient rt
    unfolding is_stale delete
    check_entry k none c = (Value.none, c)
    check_entry k (some (ts, v)) c =
        let read : HistoryClient rt = record c { reads = c.reads + 1 } in
        if is_stale c (gateway.time c.reads) ts
        then (Value.none, record read { cache = delete k c.cache })
        else (v, read)

    unfoldable pub get_cached : Key rt → HistoryClient rt → Value rt × HistoryClient rt
    unfolding find check_entry
    get_cached k c = check_entry k (find k c.cache) c

    unfoldable pub set_cached : Key rt → Value rt → HistoryClient rt → HistoryClient rt
    unfolding store
    set_cached k v c = record c {
      cache = store k (gateway.time c.reads, v) c.cache;
      reads = c.reads + 1;
    }

    -- The part of `_rpc` behind the answer.
    unfoldable pub result_of : Value rt → Result rt (Value rt)
    unfolding is_in get_field
    result_of response = do
      failed ← is_in "error" response
      if failed then err python_error else get_field response "result" (dict end)

    unfoldable pub rpc :
        String → Fields rt → Value rt → HistoryClient rt → Result rt (Value rt) × HistoryClient rt
    unfolding result_of truthy
    rpc method params token c = (
      gateway.call method params (if truthy token then token else c.token) c.calls >>= result_of,
      record c { calls = c.calls + 1 },
    )
