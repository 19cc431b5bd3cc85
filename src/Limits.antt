-- ===== src/Limits.antt =====
-- src/node/ratelimit.js: the token buckets, and src/node/tokens.js: the burn store.
--
-- Keys are numbers standing for the strings. Times are whole milliseconds. `refillPerSecond` is a
-- fraction, `refill_tokens` in `refill_seconds` (src/node/server.js: 1 in 1, 2 in 1, and 20 in 60),
-- and a bucket is counted in such units that a millisecond adds `refill_tokens` of them: a token is
-- `1000 * refill_seconds`. These are exact numbers; the rounding of the source's floating-point
-- numbers is not modelled.
pub mod Buckets
pub mod Burn
use better_nodejs_vless_ws.Base.{
  ℕ, zero, suc, ◌+◌, ◌*◌, ◌-◌, ◌≤◌, ◌<◌, Bool, true, false, not, Option, none, some, List, [], ◌∷◌,
  if◌then◌else◌, ltb, leb, ◌==◌, length, min,
}
use better_nodejs_vless_ws.Base.Assoc.{map_get, map_set}

pub record Bucket : Type 0 where
  pub tokens : ℕ
  pub at : ℕ

-- The options of `createRateLimiter`; `capacity` is in tokens, and `refill_seconds` is not 0.
pub record Limits : Type 0 where
  pub capacity : ℕ
  pub refill_tokens : ℕ
  pub refill_seconds : ℕ
  pub max_keys : ℕ

-- A token, and a full bucket.
abbrev pub token : Limits → ℕ
token l = 1000 * l.refill_seconds

abbrev pub full : Limits → ℕ
full l = l.capacity * token l

-- `bucket.tokens + ((now - bucket.at) / 1000) * refillPerSecond`; the clock does not run back.
unfoldable pub refilled : Limits → Bucket → ℕ → ℕ
refilled l b now = b.tokens + (now - b.at) * l.refill_tokens

unfoldable pub sweep : Limits → ℕ → List (ℕ × Bucket) → List (ℕ × Bucket)
unfolding refilled
sweep l now [] = []
sweep l now ((key, b) ∷ rest) =
    let kept = sweep l now rest in if leb (full l) (refilled l b now) then kept else (key, b) ∷ kept

-- The end of `allow`, once the bucket of the key is at hand.
unfoldable pub charge : Limits → ℕ → ℕ → Bucket → List (ℕ × Bucket) → Bool × List (ℕ × Bucket)
unfolding refilled
charge l key now b buckets =
    let tokens = min (full l) (refilled l b now) in
    if ltb tokens (token l)
    then (false, map_set key (record { tokens = tokens; at = now }) buckets)
    else (true, map_set key (record { tokens = tokens - token l; at = now }) buckets)

-- `allow`: the answer and the buckets afterwards.
unfoldable pub allow : Limits → ℕ → ℕ → List (ℕ × Bucket) → Bool × List (ℕ × Bucket)
allow l key now buckets = elim (map_get key buckets) [
  | some b ↦ charge l key now b buckets
  | none ↦
      let room = if leb l.max_keys (length buckets) then sweep l now buckets else buckets in
      let fresh : Bucket = record { tokens = full l; at = now } in
      if leb l.max_keys (length room)
      then (false, room)
      else charge l key now fresh (map_set key fresh room)
]
