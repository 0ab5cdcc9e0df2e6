-- ===== src/A2a/Retry/Invariant.antt =====
-- What every send and every sleep keeps, the whole run keeps.
use agentwire_cue.Prelude.{ℕ, zero, suc, Option, none, some, if_elim}
use agentwire_cue.Prelude.Int.{ℤ, pos, int_eq, int_ltb}
use agentwire_cue.A2a.Retry.{
  SendResult, RetryPolicy, success, failed, exhausted, permission_denied, delay_ms, attempts, pause,
  settle, retry_loop, execute_with_retry,
}

module _ {κ ι} {W : Type 0} (send_fn : W → Option SendResult × W) (sleep : ℤ → W → W)
    (policy : RetryPolicy) (I : W → Type κ) (Q : Option SendResult → Type ι)
    (sends : (w : W) → I w → Q (send_fn w).0 × I (send_fn w).1)
    (sleeps : (d : ℤ) (w : W) → I w → I (sleep d w)) (gives_up : Q (some exhausted)) where
  settle-keeps :
      (r : Option SendResult) (w : W) (again : Option SendResult × W)
      → Q r × I w
      → Q again.0 × I again.1
      → Q (settle r w again).0 × I (settle r w again).1
  unfolding settle
  settle-keeps none w again h k = h
  settle-keeps (some success) w again h k = h
  settle-keeps (some permission_denied) w again h k = h
  settle-keeps (some failed) w again h k = k
  settle-keeps (some exhausted) w again h k = k

  pause-keeps : (attempt : ℕ) (w : W) → I w → I (pause send_fn sleep policy attempt w)
  unfolding pause
  pause-keeps attempt w h =
      if_elim I (int_ltb (pos attempt) policy.max_retries)
        (λ _. sleeps (delay_ms policy attempt) w h) (λ _. h)

  retry_loop-keeps :
      (left attempt : ℕ) (w : W)
      → I w
      → Q (retry_loop send_fn sleep policy left attempt w).0
        × I (retry_loop send_fn sleep policy left attempt w).1
  unfolding retry_loop
  retry_loop-keeps zero attempt w h = (gives_up, h)
  retry_loop-keeps (suc left) attempt w h =
      let paused = pause send_fn sleep policy attempt (send_fn w).1 in
      settle-keeps (send_fn w).0 (send_fn w).1
        (retry_loop send_fn sleep policy left (suc attempt) paused) (sends w h)
        (retry_loop-keeps left (suc attempt) paused
          (pause-keeps attempt (send_fn w).1 (sends w h).1))

  pub execute_with_retry-keeps :
      (w : W)
      → I w
      → Q (execute_with_retry send_fn sleep policy w).0
        × I (execute_with_retry send_fn sleep policy w).1
  unfolding execute_with_retry
  execute_with_retry-keeps w h =
      if_elim (λ (r : Option SendResult × W). Q r.0 × I r.1) (int_eq policy.max_retries (pos 0))
        (λ _. sends w h) (λ _. retry_loop-keeps (attempts policy) 0 w h)
