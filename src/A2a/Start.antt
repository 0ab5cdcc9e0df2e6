-- ===== src/A2a/Start.antt =====
-- `A2AListener.start` of core/a2a_client.py: the three tries to bind. `W` is the state of the system.
use agentwire_cue.Prelude.{ℕ, zero, suc, Bool, ltb, if◌then◌else◌}

-- The listener runs, or RuntimeError was raised.
pub data Started : Type 0 where
  started bind_failed : Started

module _ {W : Type 0} (bind : W → Bool × W) (sleep_second : W → W) where
  -- The rounds of the loop that are left, from `attempt` on; `bind` tells whether no OSError came.
  unfoldable pub bind_loop : ℕ → ℕ → W → Started × W
  bind_loop zero attempt w = (bind_failed, w)
  bind_loop (suc left) attempt w =
      let (bound, w') = bind w in
      let again = bind_loop left (suc attempt) (if ltb attempt 2 then sleep_second w' else w') in
      if bound then (started, w') else again

  unfoldable pub start : W → Started × W
  unfolding bind_loop
  start w = bind_loop 3 0 w
