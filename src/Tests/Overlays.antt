-- ===== src/Tests/Overlays.antt =====
-- The theorem on overlays at a concrete input.
use agentwire_cue.Prelude.{◌≡◌, refl}
use agentwire_cue.Prelude.Int.{pos}
use agentwire_cue.Value.{Fields, int, str, dict, end, field}
use agentwire_cue.Value.Dict
use agentwire_cue.Loader.Overlay.{deep_merge}
use agentwire_cue.Loader.Overlay.Laws.{Distinct, overlaid, get-deep_merge}
use agentwire_cue.Tests.Sample.{small}

abbrev base : Fields small
base = field "spec" (dict (field "a" (int (pos 1)) (field "b" (int (pos 2)) end))) end

abbrev local : Fields small
local = field "spec" (dict (field "b" (str "x") end)) (field "extra" (str "y") end)

local_is_Distinct : Distinct local
unfolding Dict.get
local_is_Distinct = (refl, (refl, tt))

get-deep_merge_example :
    Dict.get "spec" (deep_merge base local)
    ≡ overlaid (Dict.get "spec" base) (Dict.get "spec" local)
get-deep_merge_example = get-deep_merge base local local_is_Distinct "spec"
