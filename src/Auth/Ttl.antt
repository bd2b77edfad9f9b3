-- ===== src/Auth/Ttl.antt =====
-- How long a token is kept.
use htvend.Base.{◌≡◌, ℕ, ◌+◌, ◌*◌, ◌≤◌, arith}
use htvend.Auth.{token_duration, add_duration}

-- For a lifetime of at most 9223372046 seconds and a time from the year 292 on, nothing overflows: the
-- token is kept until 10 seconds before its end, which is in the past for a shorter lifetime.
pub add_duration-token_duration :
    (now expires : ℕ)
    → expires ≤ 9223372046
    → 9223372036854775808 ≤ now
    → add_duration now (token_duration expires) + 10000000000 ≡ now + expires * 1000000000
unfolding add_duration token_duration
add_duration-token_duration now expires h past = ground arith
