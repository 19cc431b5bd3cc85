-- ===== src/Tests/Limits.antt =====
-- Runs of src/node/ratelimit.js and of the burn store of src/node/tokens.js.
use better_nodejs_vless_ws.Base.{
  ℕ, ◌≡◌, refl, ◌≤◌, ◌+◌, ◌*◌, ◌-◌, true, List, [], ◌∷◌, length, arith,
}
use better_nodejs_vless_ws.Base.Assoc.{map_get}
use better_nodejs_vless_ws.Limits.{Limits, Bucket, allow}
use better_nodejs_vless_ws.Limits.Buckets.{run, allow-bounded, run_bounded}
use better_nodejs_vless_ws.Limits.Burn.{Used, Attempt, claim, attempts, claim-bounded, claim_once}

-- Two calls at once, one more every three seconds, and room for two callers.
abbrev one_in_three : Limits
one_in_three = record { capacity = 2; refill_tokens = 1; refill_seconds = 3; max_keys = 2 }

abbrev two_callers : List (ℕ × Bucket)
two_callers = (5, record { tokens = 0; at = 100 }) ∷ (6, record { tokens = 1000; at = 100 }) ∷ []

allow-bounded_example : length (allow one_in_three 7 200 two_callers).1 ≤ 2
allow-bounded_example = allow-bounded one_in_three 7 200 two_callers (omega arith)

-- Three calls of one caller, with one of another between.
abbrev some_calls : List (ℕ × ℕ)
some_calls = (0, 5) ∷ (10, 6) ∷ (10, 5) ∷ (10, 5) ∷ []

run_bounded_example :
    (run one_in_three 5 100 some_calls []).0
    ≤ 2 * 3000 + ((run one_in_three 5 100 some_calls []).1 - 100) * 1
run_bounded_example = run_bounded one_in_three 5 100 some_calls []

abbrev used_before : List (ℕ × Used)
used_before = (9, record { first_used_at = 10; expires_at = 500 }) ∷ []

claim-bounded_example : length (claim 4 8 600 30 100 used_before).1 ≤ 4
claim-bounded_example = claim-bounded 4 8 600 30 100 used_before (omega arith)

-- The same invite again after 20 ms, then another.
abbrev two_attempts : List Attempt
two_attempts =
    record { wait = 20; nonce = 8; expires_at = 600 }
    ∷ record { wait = 5; nonce = 7; expires_at = 700 }
    ∷ []

claim_once_example :
    (claim 4 8 600 30
      (attempts 4 30 100 two_attempts (claim 4 8 600 30 100 used_before).1).0
      (attempts 4 30 100 two_attempts (claim 4 8 600 30 100 used_before).1).1).0
    ≡ true
unfolding claim attempts map_get
claim_once_example = claim_once 4 8 600 30 100 600 two_attempts used_before refl refl (omega arith)
