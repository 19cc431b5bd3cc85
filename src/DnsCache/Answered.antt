-- ===== src/DnsCache/Answered.antt =====
-- src/node/dnscache.js: every callback is called once, or dropped by `clear`.
use better_nodejs_vless_ws.Base.{ℕ, ◌+◌, List, [], ◌∷◌, ◌++◌, if◌then◌else◌, ◌==◌}
use better_nodejs_vless_ws.Base.Text.{Text}
use better_nodejs_vless_ws.DnsCache.{
  DnsCache, DnsEffect, call_back, start_lookup, Reply, resolve, on_reply, sweep, clear,
}

-- How often a callback stands in a list.
abbrev pub count : ℕ → List ℕ → ℕ
count n [] = 0
count n (cb ∷ cbs) = (if cb == n then 1 else 0) + count n cbs

-- How often it waits, and how often it was called.
abbrev pub waiting : ℕ → List (Text × List ℕ) → ℕ
waiting n [] = 0
waiting n ((host, queue) ∷ pending) = count n queue + waiting n pending

abbrev pub called : ℕ → List DnsEffect → ℕ
called n [] = 0
called n (call_back cb answer ∷ es) = (if cb == n then 1 else 0) + called n es
called n (start_lookup host ∷ es) = called n es

-- What happens to the cache: a host is asked for with a callback, a lookup is answered, the timer
-- fires, each at a second, or all is cleared.
pub data Call : Type 0 where
  asked : Text → ℕ → ℕ → Call
  replied : Text → Reply → ℕ → Call
  swept : ℕ → Call
  cleared : Call

abbrev pub apply : ℕ → DnsCache → Call → DnsCache × List DnsEffect
apply ttl d (asked host cb now) = resolve d host cb now
apply ttl d (replied host reply now) = on_reply d ttl host reply now
apply ttl d (swept now) = (sweep d now, [])
apply ttl d cleared = (clear d, [])

abbrev pub run : ℕ → DnsCache → List Call → DnsCache × List DnsEffect
run ttl d [] = (d, [])
run ttl d (call ∷ calls) =
    let (d', now) = apply ttl d call in let (d'', later) = run ttl d' calls in (d'', now ++ later)

-- How often a callback is handed over.
abbrev pub handed_over : ℕ → List Call → ℕ
handed_over n [] = 0
handed_over n (asked host cb now ∷ calls) = (if cb == n then 1 else 0) + handed_over n calls
handed_over n (replied host reply now ∷ calls) = handed_over n calls
handed_over n (swept now ∷ calls) = handed_over n calls
handed_over n (cleared ∷ calls) = handed_over n calls

-- How often it waits when all is cleared, over all the times that happens.
abbrev pub dropped : ℕ → ℕ → DnsCache → List Call → ℕ
dropped n ttl d [] = 0
dropped n ttl d (asked host cb now ∷ calls) = dropped n ttl (resolve d host cb now).0 calls
dropped n ttl d (replied host reply now ∷ calls) =
    dropped n ttl (on_reply d ttl host reply now).0 calls
dropped n ttl d (swept now ∷ calls) = dropped n ttl (sweep d now) calls
dropped n ttl d (cleared ∷ calls) = waiting n d.pending + dropped n ttl (clear d) calls

-- An answer for each host that is waited for, each with its own.
abbrev pub replies_for : (Text → Reply) → ℕ → List (Text × List ℕ) → List Call
replies_for answers now [] = []
replies_for answers now ((host, queue) ∷ pending) =
    replied host (answers host) now ∷ replies_for answers now pending
