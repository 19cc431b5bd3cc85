-- ===== src/DnsCache.antt =====
-- src/node/dnscache.js: addresses of hosts, looked up once for all that wait.
--
-- A callback is a number. Calling it, starting a lookup and leaving one to `dns.lookup` are effects,
-- in order; a callback that asks again is a call of its own, behind them. Times are whole seconds.
-- Log lines are left out.
pub mod Answered
use better_nodejs_vless_ws.Base.{
  ℕ, ◌+◌, Bool, true, false, ◌&&◌, ◌||◌, Option, none, some, List, [], ◌∷◌, ◌++◌, map,
  if◌then◌else◌, ltb, leb,
}
use better_nodejs_vless_ws.Base.Text.{Text, codes}
use better_nodejs_vless_ws.Base.Strings.{split_on, index_of, text_get, text_set, text_delete}

pub record Entry : Type 0 where
  pub address : Text
  pub expires : ℕ

-- The maps `cache` and `pending`, in order of insertion.
pub record DnsCache : Type 0 where
  pub cache : List (Text × Entry)
  pub pending : List (Text × List ℕ)

-- The arguments of a callback: an error, or an address.
pub data Answer : Type 0 where
  failed found : Text → Answer

pub data DnsEffect : Type 0 where
  call_back : ℕ → Answer → DnsEffect
  start_lookup : Text → DnsEffect

unfoldable pub all_digits : Text → Bool
all_digits [] = true
all_digits (c ∷ cs) = leb b'0' c && leb c b'9' && all_digits cs

-- `\d+`.
unfoldable pub is_digits : Text → Bool
is_digits [] = false
is_digits (c ∷ cs) = all_digits (c ∷ cs)

-- `IPV4_LITERAL`, on the parts between the dots.
unfoldable pub are_four_numbers : List Text → Bool
are_four_numbers (a ∷ b ∷ c ∷ d ∷ []) = is_digits a && is_digits b && is_digits c && is_digits d
are_four_numbers parts = false

-- A literal of either kind.
unfoldable pub is_literal : Text → Bool
is_literal host = elim (index_of b':' host) [
  | none ↦ are_four_numbers (split_on b'.' host)
  | some i ↦ true
]

-- A miss: the caller joins those that wait for the host, or starts the lookup.
unfoldable pub enqueue : DnsCache → Text → ℕ → DnsCache × List DnsEffect
enqueue d host cb = elim (text_get host d.pending) [
  | some queued ↦ (record d { pending = text_set host (queued ++ cb ∷ []) d.pending }, [])
  | none ↦ (record d { pending = text_set host (cb ∷ []) d.pending }, start_lookup host ∷ [])
]

-- `resolve`, at the second `now`.
unfoldable pub resolve : DnsCache → Text → ℕ → ℕ → DnsCache × List DnsEffect
resolve d [] cb now = (d, call_back cb (failed (codes "Empty Host")) ∷ [])
resolve d (c ∷ cs) cb now =
    let missed = enqueue d (c ∷ cs) cb in
    let looked : DnsCache × List DnsEffect = elim (text_get (c ∷ cs) d.cache) [
      | none ↦ missed
      | some entry ↦
          if ltb now entry.expires then (d, call_back cb (found entry.address) ∷ []) else missed
    ] in
    if is_literal (c ∷ cs) then (d, call_back cb (found (c ∷ cs)) ∷ []) else looked

-- What `resolve4` reports: an error, or addresses.
pub data Reply : Type 0 where
  error : Text → Reply
  addresses : List Text → Reply

-- An error or no address is a failure; an empty text counts as missing.
unfoldable pub answer_of : Reply → Answer
answer_of (error []) = failed (codes "Resolution Failed")
answer_of (error (c ∷ cs)) = failed (c ∷ cs)
answer_of (addresses []) = failed (codes "Resolution Failed")
answer_of (addresses ([] ∷ more)) = failed (codes "Resolution Failed")
answer_of (addresses ((c ∷ cs) ∷ more)) = found (c ∷ cs)

-- What an answer leaves in the cache, from `now` on.
unfoldable pub cached : ℕ → ℕ → Text → Answer → List (Text × Entry) → List (Text × Entry)
cached ttl now host (failed reason) cache = cache
cached ttl now host (found address) cache =
    text_set host (record { address = address; expires = now + ttl }) cache

abbrev pub queue_of : Option (List ℕ) → List ℕ
queue_of none = []
queue_of (some queue) = queue

-- The callback of `resolve4`.
unfoldable pub on_reply : DnsCache → ℕ → Text → Reply → ℕ → DnsCache × List DnsEffect
on_reply d ttl host reply now =
    let answer = answer_of reply in
    let queue = queue_of (text_get host d.pending) in
    (
      record { cache = cached ttl now host answer d.cache; pending = text_delete host d.pending },
      map (λ cb. call_back cb answer) queue,
    )

-- The timer that drops what has expired.
unfoldable pub kept : ℕ → List (Text × Entry) → List (Text × Entry)
kept now [] = []
kept now ((host, entry) ∷ cache) =
    let rest = kept now cache in if leb entry.expires now then rest else (host, entry) ∷ rest

unfoldable pub sweep : DnsCache → ℕ → DnsCache
sweep d now = record d { cache = kept now d.cache }

-- What `lookup` does with the answer of `resolve`: Node's own lookup, every candidate, or one.
pub data LookupAnswer : Type 0 where
  own_lookup : LookupAnswer
  every_candidate one_candidate : Text → LookupAnswer

unfoldable pub lookup_answer : Answer → Bool → LookupAnswer
lookup_answer (failed reason) all = own_lookup
lookup_answer (found []) all = own_lookup
lookup_answer (found (c ∷ cs)) true = every_candidate (c ∷ cs)
lookup_answer (found (c ∷ cs)) false = one_candidate (c ∷ cs)

-- What `resolveAndSend` does with it: an error goes to the caller, and without a socket nothing is
-- sent.
pub data SendAnswer : Type 0 where
  report : Text → SendAnswer
  no_socket : SendAnswer
  send_to : Text → SendAnswer

unfoldable pub send_answer : Answer → Bool → SendAnswer
send_answer (failed reason) has_socket = report reason
send_answer (found address) false = no_socket
send_answer (found address) true = send_to address

-- `clear`: those that wait are dropped with the rest.
unfoldable pub clear : DnsCache → DnsCache
clear d = record { cache = []; pending = [] }
