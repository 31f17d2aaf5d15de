-- ===== src/Engine/Bucket/Rate.antt =====
-- When a bucket lets a call through.
use chaotic.Base.{ℕ, ◌-◌, ◌*◌, ◌≤◌, ◌≡◌, true, arith}
use chaotic.Engine.Bucket.{Bucket, one_token, allow}

-- A call that comes a token's time after the previous one is let through.
pub allow_after_refill :
    (now : ℕ) (b : Bucket)
    → one_token ≤ b.max_tokens
    → one_token ≤ (now - b.last) * b.rps
    → (allow now b).1 ≡ true
unfolding allow
allow_after_refill now b m h = ground arith
