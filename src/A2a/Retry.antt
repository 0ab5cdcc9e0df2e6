-- ===== src/A2a/Retry.antt =====
-- `SendResult` and `RetryPolicy` of core/a2a_client.py. `W` is the state of the outside: the network
-- and the clock.
pub mod Laws
pub mod Invariant
use Prim.Native.Nat.{min}
use agentwire_cue.Prelude.{
  ℕ, zero, suc, ◌+◌, ◌*◌, ◌^◌, Option, none, some, ltb, nat_eq, if◌then◌else◌,
}
use agentwire_cue.Prelude.Int.{ℤ, pos, negsuc, negate_ℕ, int_eq, int_ltb}

pub data SendResult : Type 0 where
  success failed exhausted permission_denied : SendResult

pub record RetryPolicy : Type 0 where
  pub max_retries : ℤ
  pub backoff_ms : ℤ

-- RetryPolicy()
abbrev pub default_policy : RetryPolicy
default_policy = record { max_retries = pos 2; backoff_ms = pos 500 }

-- min(self.backoff_ms * (2 ** attempt), 30_000)
unfoldable pub delay_ms : RetryPolicy → ℕ → ℤ
delay_ms policy attempt = elim policy.backoff_ms [
  | pos b ↦ pos (min (b * 2 ^ attempt) 30000)
  | negsuc b ↦ negate_ℕ (suc b * 2 ^ attempt)
]

-- len(range(self.max_retries + 1))
unfoldable pub attempts : RetryPolicy → ℕ
attempts policy = elim policy.max_retries [ pos n ↦ suc n | negsuc n ↦ 0 ]

-- The two `return` of the loop, and its next round.
unfoldable pub settle :
    {W : Type 0} → Option SendResult → W → Option SendResult × W → Option SendResult × W
settle none w again = (none, w)
settle (some success) w again = (some success, w)
settle (some permission_denied) w again = (some permission_denied, w)
settle (some failed) w again = again
settle (some exhausted) w again = again

module _ {W : Type 0} (send_fn : W → Option SendResult × W) (sleep : ℤ → W → W) where
  -- `if attempt < self.max_retries: await asyncio.sleep(...)`
  unfoldable pub pause : RetryPolicy → ℕ → W → W
  unfolding delay_ms
  pause policy attempt w =
      if int_ltb (pos attempt) policy.max_retries then sleep (delay_ms policy attempt) w else w

  -- The rounds of the loop that are left, from `attempt` on. `none` is an exception of `send_fn`.
  unfoldable pub retry_loop : RetryPolicy → ℕ → ℕ → W → Option SendResult × W
  unfolding pause settle
  retry_loop policy zero attempt w = (some exhausted, w)
  retry_loop policy (suc left) attempt w =
      let (result, sent) = send_fn w in
      let again = retry_loop policy left (suc attempt) (pause policy attempt sent) in
      settle result sent again

  unfoldable pub execute_with_retry : RetryPolicy → W → Option SendResult × W
  unfolding retry_loop attempts
  execute_with_retry policy w =
      if int_eq policy.max_retries (pos 0)
      then send_fn w
      else retry_loop policy (attempts policy) 0 w
