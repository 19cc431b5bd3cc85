-- ===== src/Doh/Outage.antt =====
-- src/node/doh.js: when the breaker opens, and that `skipName` ends.
use better_nodejs_vless_ws.Base.{
  ℕ, ◌+◌, ◌≤◌, ◌<◌, ◌≡◌, refl, ap, ◌∙◌, Bool, true, false, none, List, [], ◌∷◌, length, arith,
}
use better_nodejs_vless_ws.Doh.{
  Breaker, Options, Reply, addresses_of, note_failure, on_reply, sends_request,
}

-- Replies one after the other, each so long after the one before: the time and the breaker.
unfoldable pub replies : Options → ℕ → Breaker → List (ℕ × Reply) → ℕ × Breaker
replies options now breaker [] = (now, breaker)
replies options now breaker ((wait, reply) ∷ rest) =
    replies options (now + wait) (on_reply options breaker (now + wait) reply).0 rest

-- None of the replies brings an address.
abbrev pub AllFail : List (ℕ × Reply) → Type 0
AllFail [] = Unit {0}
AllFail ((wait, reply) ∷ rest) = (addresses_of reply ≡ none) × AllFail rest

on_reply-fail :
    (options : Options) (breaker : Breaker) (now : ℕ) (reply : Reply)
    → addresses_of reply ≡ none
    → (on_reply options breaker now reply).0 ≡ note_failure options breaker now
unfolding on_reply
on_reply-fail options breaker now reply e = rw (e, on_reply) refl

replies-fail :
    (options : Options) (now : ℕ) (breaker : Breaker) (rest : List (ℕ × Reply))
    → AllFail rest
    → breaker.consecutive_failures + length rest ≡ options.failure_threshold
    → 1 ≤ length rest
    → (replies options now breaker rest).1.open_until
      ≡ (replies options now breaker rest).0 + options.cool_off
unfolding replies note_failure
replies-fail options now breaker [] fail h k = absurd (omega arith)
replies-fail options now breaker ((wait, reply) ∷ []) fail h k =
    ap (λ (x : Breaker). x.open_until) (on_reply-fail options breaker (now + wait) reply fail.0)
    ∙ ground arith
replies-fail options now breaker ((wait, reply) ∷ next ∷ rest) fail h k =
    let step = on_reply-fail options breaker (now + wait) reply fail.0 in
    replies-fail options (now + wait) (on_reply options breaker (now + wait) reply).0 (next ∷ rest)
      fail.1 (ground (arith, ap (λ (x : Breaker). x.consecutive_failures) step)) (omega arith)

-- After a success, as many failed replies in a row as `failureThreshold` open the breaker: until
-- `coolOffMs` after the last of them no lookup sends a request. The threshold is at least 1.
pub breaker_opens :
    (options : Options) (now later : ℕ) (breaker : Breaker) (fails : List (ℕ × Reply))
    (encodable : Bool)
    → breaker.consecutive_failures ≡ 0
    → AllFail fails
    → length fails ≡ options.failure_threshold
    → 1 ≤ options.failure_threshold
    → later < (replies options now breaker fails).0 + options.cool_off
    → sends_request (replies options now breaker fails).1 later encodable ≡ false
unfolding sends_request
breaker_opens options now later breaker fails encodable zero_yet fail h k soon =
    ground (arith, replies-fail options now breaker fails fail (omega arith) (omega arith))

-- The breaker opens once in an outage: when its threshold has been reached and its cool-off is over,
-- no further failed replies open it again, however many, so each lookup of a name that can be
-- encoded sends a request, until one succeeds.
pub breaker_stays_shut :
    (options : Options) (now : ℕ) (breaker : Breaker) (fails : List (ℕ × Reply))
    → AllFail fails
    → options.failure_threshold ≤ breaker.consecutive_failures
    → breaker.open_until ≤ now
    → sends_request (replies options now breaker fails).1 (replies options now breaker fails).0 true
      ≡ true
unfolding sends_request replies note_failure
breaker_stays_shut options now breaker [] fail h shut = ground arith
breaker_stays_shut options now breaker ((wait, reply) ∷ rest) fail h shut =
    let step = on_reply-fail options breaker (now + wait) reply fail.0 in
    breaker_stays_shut options (now + wait) (on_reply options breaker (now + wait) reply).0 rest
      fail.1 (ground (arith, ap (λ (x : Breaker). x.consecutive_failures) step))
      (ground (arith, ap (λ (x : Breaker). x.open_until) step))
