-- ===== src/Value/Dict.antt =====
-- Python's dict with text keys, in insertion order.
use agentwire_cue.Prelude.{
  String, ◌≡◌, refl, Option, none, some, Bool, arith, ◌==◌, eq_iff, if◌then◌else◌,
}
use agentwire_cue.Value.{Runtime, Value, Fields, end, field}

module _ {rt : Runtime} where
  -- d.get(k); no entry is `none`, and an entry that holds None is `some Value.none`
  unfoldable pub get : String → Fields rt → Option (Value rt)
  get k end = none
  get k (field j v d) = if j == k then some v else get k d

  -- d[k] = v: a key that is there keeps its place
  unfoldable pub set : String → Value rt → Fields rt → Fields rt
  set k v end = field k v end
  set k v (field j w d) = if j == k then field j v d else field j w (set k v d)

  -- d.get(k, default)
  abbrev pub get_or : String → Value rt → Fields rt → Value rt
  get_or k v d = elim (get k d) [ none ↦ v | some w ↦ w ]

  -- {k: v for k, v in d.items() if keep(k)}
  unfoldable pub filter_keys : (String → Bool) → Fields rt → Fields rt
  filter_keys keep end = end
  filter_keys keep (field k v d) =
      let rest = filter_keys keep d in if keep k then field k v rest else rest

  pub get-set :
      (k j : String) (v : Value rt) (d : Fields rt)
      → get j (set k v d) ≡ (if k == j then some v else get j d)
  unfolding get set
  get-set k j v end = refl
  get-set k j v (field i w d) = ground (arith, eq_iff k j, eq_iff i k, eq_iff i j, get-set k j v d)

  pub get-filter_keys :
      (keep : String → Bool) (k : String) (d : Fields rt)
      → get k (filter_keys keep d) ≡ (if keep k then get k d else none)
  unfolding get filter_keys
  get-filter_keys keep k end = ground arith
  get-filter_keys keep k (field j v d) = ground (arith, eq_iff j k, get-filter_keys keep k d)

pub ruleset dict_laws = (get-set, get-filter_keys)
