-- ===== src/Outbox/Backoff.antt =====
-- Retry delays and shards of outbox/drain.go. A duration is the 64-bit pattern of its nanoseconds,
-- so that the patterns from 2^63 on are negative; the time 0 is Go's zero time.
use eventstore.Base.{
  ℕ, zero, suc, ◌+◌, ◌*◌, ◌-◌, ◌%◌, ◌^◌, Bool, ◌&&◌, [], ◌∷◌, Text, ltb, if◌then◌else◌,
}
use Prim.Native.Nat.{bit_xor}
use eventstore.Es.Envelope.{Time}

-- `a > b` on durations, for a `b` that is not negative.
abbrev pub exceeds : ℕ → ℕ → Bool
exceeds a b = ltb a (2 ^ 63) && ltb b a

-- The loop of computeNextAttemptAt, from `delay`, with `n` doublings to go.
unfoldable pub doubled : ℕ → ℕ → ℕ → ℕ
doubled max zero delay = delay
doubled max (suc n) delay =
    let next = delay * 2 % 2 ^ 64 in
    let rest = doubled max n next in if ltb 0 max && exceeds next max then max else rest

unfoldable pub capped : ℕ → ℕ → ℕ
capped max delay = if ltb 0 max && exceeds delay max then max else delay

unfoldable pub backoff_delay : ℕ → ℕ → ℕ → ℕ
unfolding doubled capped
backoff_delay base max attempts_after = capped max (doubled max (attempts_after - 1) base)

-- `now.Add(delay)`.
abbrev add_duration : Time → ℕ → Time
add_duration now delay = if ltb delay (2 ^ 63) then now + delay else now - (2 ^ 64 - delay)

-- The method computeNextAttemptAt. A base that is negative or zero gives the zero time.
unfoldable pub compute_next_attempt_at : ℕ → ℕ → Time → ℕ → Time
unfolding backoff_delay
compute_next_attempt_at base max now attempts_after =
    if ltb 0 base && ltb base (2 ^ 63)
    then add_duration now (backoff_delay base max attempts_after)
    else 0

-- FNV-1a with 32 bits, as hash/fnv documents it.
unfoldable pub fnv_1a : ℕ → Text → ℕ
fnv_1a h [] = h
fnv_1a h (b ∷ s) = fnv_1a (bit_xor h b * 16777619 % 2 ^ 32) s

-- streamShard. The source panics where `total` is a multiple of 2^32; the remainder is taken here.
unfoldable pub stream_shard : Text → ℕ → ℕ
unfolding fnv_1a
stream_shard key total = fnv_1a 2166136261 key % (total % 2 ^ 32)
