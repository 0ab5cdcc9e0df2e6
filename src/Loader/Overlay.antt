-- ===== src/Loader/Overlay.antt =====
-- `_deep_merge` of core/loader.py, with which production.local.yaml is laid over cue.yaml.
pub mod Laws
use agentwire_cue.Prelude.{String, Option, none, some}
use agentwire_cue.Value.{Runtime, Value, Fields, dict, end, field}
use agentwire_cue.Value.Dict

module _ {rt : Runtime} where
  unfoldable mutual
    unfolding Dict.set Dict.get

    -- The loop over the entries of the overlay; the first argument is `result`.
    pub deep_merge : Fields rt → Fields rt → Fields rt
    deep_merge result end = result
    deep_merge result (field key v overlay) =
        deep_merge (Dict.set key (merged_value (Dict.get key result) v) result) overlay

    -- The value under a key, from the one in the base, if there is one, and the one in the overlay.
    pub merged_value : Option (Value rt) → Value rt → Value rt
    merged_value (some (dict base)) (dict overlay) = dict (deep_merge base overlay)
    merged_value _ v = v
