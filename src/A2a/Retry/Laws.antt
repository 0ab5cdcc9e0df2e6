-- ===== src/A2a/Retry/Laws.antt =====
-- How often a message is sent, how long the policy sleeps, and what its result says about the sends.
use agentwire_cue.Prelude.{
  ℕ, zero, suc, ◌+◌, ◌≤◌, ◌≡◌, ◌≢◌, refl, Bool, true, false, ◌⊎◌, inl, inr, Option, none, some,
  List, [], ◌∷◌, arith, if◌then◌else◌,
}
use agentwire_cue.Prelude.Int.{ℤ, pos, negsuc, pos_part, ◌+ℤ◌, ◌≤ℤ◌, int_eq, int_eq→eq, int_ltb}
use agentwire_cue.A2a.Retry.{
  SendResult, RetryPolicy, success, failed, exhausted, permission_denied, delay_ms, attempts,
  settle, pause, settle, retry_loop, execute_with_retry,
}

-- What the policy does to the outside, the newest first.
pub data Act : Type 0 where
  sent : Option SendResult → Act
  slept : ℤ → Act

abbrev pub sends : List Act → ℕ
sends [] = 0
sends (sent r ∷ t) = suc (sends t)
sends (slept d ∷ t) = sends t

abbrev pub sleeps : List Act → ℕ
sleeps [] = 0
sleeps (sent r ∷ t) = sleeps t
sleeps (slept d ∷ t) = suc (sleeps t)

-- No sleep is longer than 30 seconds.
abbrev pub ShortSleeps : List Act → Type 0
ShortSleeps [] = Unit {0}
ShortSleeps (sent r ∷ t) = ShortSleeps t
ShortSleeps (slept d ∷ t) = (d ≤ℤ pos 30000) × ShortSleeps t

-- Every send failed in a way that is tried again.
abbrev pub AllFailed : List Act → Type 0
AllFailed [] = Unit {0}
AllFailed (sent r ∷ t) = ((r ≡ some failed) ⊎ (r ≡ some exhausted)) × AllFailed t
AllFailed (slept d ∷ t) = AllFailed t

-- What the result says about the trace: the newest act is the send that decided it, or every one
-- of the n sends failed.
abbrev pub Explains : ℕ → Option SendResult → List Act → Type 0
Explains n (some exhausted) t = AllFailed t × (sends t ≡ n)
Explains n r t = (u : List Act) × (t ≡ sent r ∷ u) × AllFailed u

module _ {W : Type 0} (send_fn : W → Option SendResult × W) (sleep : ℤ → W → W) where
  abbrev pub traced_send : List Act × W → Option SendResult × (List Act × W)
  traced_send (t, w) = let (r, v) = send_fn w in (r, (sent r ∷ t, v))

  abbrev pub traced_sleep : ℤ → List Act × W → List Act × W
  traced_sleep d (t, w) = (slept d ∷ t, sleep d w)

  module _ (policy : RetryPolicy) where
    delay-short : (n : ℕ) → delay_ms policy n ≤ℤ pos 30000
    unfolding delay_ms
    delay-short n = go policy.backoff_ms refl
      where
        go : (b : ℤ) → policy.backoff_ms ≡ b → delay_ms policy n ≤ℤ pos 30000
        go (pos b) h = ground (arith, h)
        go (negsuc b) h = ground (arith, h)

    abbrev pub max_sleeps : ℕ
    max_sleeps = pos_part policy.max_retries

    -- max_retries + 1, and no send at all where that is negative.
    abbrev pub max_sends : ℕ
    max_sends = pos_part (policy.max_retries +ℤ pos 1)

    attempts-max_sends : attempts policy ≡ max_sends
    unfolding attempts ◌+ℤ◌
    attempts-max_sends = go policy.max_retries
      where
        go : (m : ℤ) → elim m as (λ m. ℕ) [ pos n ↦ suc n | negsuc n ↦ 0 ] ≡ pos_part (m +ℤ pos 1)
        go (pos n) = ground arith
        go (negsuc n) = ground arith

    abbrev paused : ℕ → List Act × W → List Act × W
    paused = pause traced_send traced_sleep policy

    -- What holds after the sleep and without it holds after the pause.
    pause-elim {ℓ} :
        (P : List Act × W → Type ℓ) (n : ℕ) (t : List Act) (w : W)
        → P (t, w)
        → (suc n ≤ max_sleeps → P (slept (delay_ms policy n) ∷ t, sleep (delay_ms policy n) w))
        → P (paused n (t, w))
    unfolding pause
    pause-elim P n t w skip sleeping = go (int_ltb (pos n) policy.max_retries) refl
      where
        go :
            (b : Bool)
            → int_ltb (pos n) policy.max_retries ≡ b
            → P (
                if◌then◌else◌ {A = List Act × W} b (traced_sleep (delay_ms policy n) (t, w)) (t, w))
        go true h = sleeping (ground (arith, h))
        go false h = skip

    -- A run with `n` sends at most: its result is explained, its sleeps are few and short.
    abbrev pub Sound : ℕ → Option SendResult × (List Act × W) → Type 0
    Sound n run =
        Explains n run.0 run.1.0
        × ShortSleeps run.1.0
        × (sends run.1.0 ≤ n)
        × (sleeps run.1.0 ≤ max_sleeps)

    -- What the loop starts each round with.
    abbrev Ready : ℕ → ℕ → List Act × W → Type 0
    Ready n attempt (t, w) =
        AllFailed t × ShortSleeps t × (sends t ≡ n) × (sleeps t ≤ attempt) × (sleeps t ≤ max_sleeps)

    paused-Ready :
        (attempt n : ℕ) (r : Option SendResult) (t : List Act) (w : W)
        → (r ≡ some failed) ⊎ (r ≡ some exhausted)
        → Ready n attempt (t, w)
        → Ready (suc n) (suc attempt) (paused attempt (sent r ∷ t, w))
    paused-Ready attempt n r t w h (f, s, e, k, m) =
        pause-elim (Ready (suc n) (suc attempt)) attempt (sent r ∷ t) w
          ((h, f), s, omega (arith, e), omega (arith, k), m)
          (λ l. (
            (h, f),
            (delay-short attempt, s),
            omega (arith, e),
            omega (arith, k),
            omega (arith, k, l),
          ))

    retry_loop-Sound :
        (left attempt n total : ℕ) (s : List Act × W)
        → n + left ≡ total
        → Ready n attempt s
        → Sound total (retry_loop traced_send traced_sleep policy left attempt s)
    unfolding retry_loop settle
    retry_loop-Sound zero attempt n total (t, w) q (f, s, e, k, m) =
        ((f, omega (arith, e, q)), s, omega (arith, e, q), m)
    retry_loop-Sound (suc left) attempt n total (t, w) q (f, s, e, k, m) =
        go (retry_loop-Sound left (suc attempt) (suc n) total) (send_fn w).0
      where
        after : W
        after = (send_fn w).1

        go :
            ((s : List Act × W)
              → suc n + left ≡ total
              → Ready (suc n) (suc attempt) s
              → Sound total (retry_loop traced_send traced_sleep policy left (suc attempt) s))
            → (r : Option SendResult)
            → Sound total (
                settle r
                  (sent r ∷ t, after)
                  (retry_loop traced_send traced_sleep policy left
                    (suc attempt)
                    (paused attempt (sent r ∷ t, after))))
        go rest none = ((t, refl, f), s, omega (arith, e, q), m)
        go rest (some success) = ((t, refl, f), s, omega (arith, e, q), m)
        go rest (some permission_denied) = ((t, refl, f), s, omega (arith, e, q), m)
        go rest (some failed) =
            rest (paused attempt (sent (some failed) ∷ t, after)) (omega (arith, q))
              (paused-Ready attempt n (some failed) t after (inl refl) (f, s, e, k, m))
        go rest (some exhausted) =
            rest (paused attempt (sent (some exhausted) ∷ t, after)) (omega (arith, q))
              (paused-Ready attempt n (some exhausted) t after (inr refl) (f, s, e, k, m))

    -- If max_retries is not 0, a run of the policy sends max_retries + 1 times at most (never, if
    -- that is negative), sleeps max_retries times at most and never longer than 30 seconds. Its
    -- result is exhausted exactly after that many sends that all failed; any other result is that
    -- of the newest send, and all sends before it failed.
    pub execute_with_retry-Sound :
        (w : W)
        → policy.max_retries ≢ pos 0
        → Sound max_sends (execute_with_retry traced_send traced_sleep policy ([], w))
    unfolding execute_with_retry
    execute_with_retry-Sound w h = go (int_eq policy.max_retries (pos 0)) refl (
        retry_loop-Sound (attempts policy) 0 0 max_sends ([], w) (omega (arith, attempts-max_sends))
          (tt, tt, omega arith, omega arith, omega arith))
      where
        go :
            (b : Bool)
            → int_eq policy.max_retries (pos 0) ≡ b
            → Sound max_sends
                (retry_loop traced_send traced_sleep policy (attempts policy) 0 ([], w))
            → Sound max_sends (
                if b
                then traced_send ([], w)
                else retry_loop traced_send traced_sleep policy (attempts policy) 0 ([], w))
        go true e x = absurd (h (int_eq→eq policy.max_retries (pos 0) e))
        go false e x = x
