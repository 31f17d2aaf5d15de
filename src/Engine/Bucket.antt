-- ===== src/Engine/Bucket.antt =====
-- The token bucket of the rate limits (engine/ratelimit.go, engine/perrule.go).
pub mod Rate
use chaotic.Base.{
  ℕ, ◌+◌, ◌-◌, ◌*◌, Bool, true, false, if◌then◌else◌, ltb, leb, ltb_ℤ, ℤ, pos, pos_part, Option,
  none, some,
}

-- Tokens are counted in billionths, so a nanosecond adds `rps` of them, exactly. The code's tokens are
-- a float64, whose sums round: a bucket may let a call through that is a fraction of a token short, or
-- the other way round. Times are nanoseconds of the monotonic clock.
pub record Bucket : Type 0 where
  pub tokens : ℕ
  pub max_tokens : ℕ
  pub rps : ℕ
  pub last : ℕ

abbrev pub one_token : ℕ
one_token = 1000000000

-- `newTokenBucket`; `none` is its panic on a rate below 1.
unfoldable pub new_token_bucket : ℤ → ℕ → Option Bucket
new_token_bucket rps now =
    let r = pos_part rps in
    if ltb_ℤ rps (pos 1)
    then none
    else some (record { tokens = r * one_token; max_tokens = r * one_token; rps = r; last = now })

-- `allow` at the time `now`.
unfoldable pub allow : ℕ → Bucket → Bucket × Bool
allow now b =
    let filled = b.tokens + (now - b.last) * b.rps in
    let tokens = if ltb b.max_tokens filled then b.max_tokens else filled in
    if leb one_token tokens
    then (record b { tokens = tokens - one_token; last = now }, true)
    else (record b { tokens = tokens; last = now }, false)
