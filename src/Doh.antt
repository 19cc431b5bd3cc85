-- ===== src/Doh.antt =====
-- src/node/doh.js: answers of DNS over HTTPS, and the breaker that turns to the system resolver.
-- A thrown error is `none`. Times are milliseconds.
pub mod Outage
pub mod Query
use better_nodejs_vless_ws.Base.{
  ℕ, zero, suc, ◌+◌, ◌/◌, ◌%◌, Bool, true, false, ◌&&◌, not, Option, none, some, List, [], ◌∷◌,
  if◌then◌else◌, ltb, leb, ◌==◌, length,
}
use better_nodejs_vless_ws.Base.Text.{Text}
use better_nodejs_vless_ws.Base.Bytes.{byte, word}
use better_nodejs_vless_ws.Vless.Address.{ipv4_text}

-- The loop of `skipName`, with at most `fuel` rounds.
unfoldable pub skip_name_loop : ℕ → List ℕ → ℕ → Option ℕ
skip_name_loop zero b o = none
skip_name_loop (suc fuel) b o =
    let len = byte b o in
    let next = skip_name_loop fuel b (o + (len + 1)) in
    if leb (length b) o
    then none
    else if len == 0
    then some (o + 1)
    else if len / 64 == 3
    then some (o + 2)
    else next

-- `skipName`: a round moves on by two bytes at least, so a round for each byte and one more do.
unfoldable pub skip_name : List ℕ → ℕ → Option ℕ
skip_name b o = skip_name_loop (suc (length b)) b o

-- The loop over the questions, with `n` left.
unfoldable pub skip_questions : ℕ → List ℕ → ℕ → Option ℕ
skip_questions zero b o = some o
skip_questions (suc n) b o = elim (skip_name b o) [
  | none ↦ none
  | some end' ↦ skip_questions n b (end' + 4)
]

-- The loop over the records, with `n` left: the addresses of those of type A.
unfoldable pub read_records : ℕ → List ℕ → ℕ → Option (List Text)
read_records zero b o = some []
read_records (suc n) b o = elim (skip_name b o) [
  | none ↦ none
  | some at ↦
      let rdlen = word b (at + 8) in
      let data_at = at + 10 in
      let is_address = word b at == 1 && rdlen == 4 in
      let rest = read_records n b (data_at + rdlen) in
      let found : Option (List Text) = elim rest [
        | none ↦ none
        | some more ↦ some (if is_address then ipv4_text b data_at ∷ more else more)
      ] in
      if ltb (length b) (at + 10)
      then none
      else if ltb (length b) (data_at + rdlen)
      then none
      else found
]

-- `decodeAnswer`.
unfoldable pub decode_answer : List ℕ → Option (List Text)
decode_answer b =
    let records : Option (List Text) = elim (skip_questions (word b 4) b 12) [
      | none ↦ none
      | some o ↦ read_records (word b 6) b o
    ] in
    if ltb (length b) 12 then none else if not (byte b 3 % 16 == 0) then none else records

pub record Breaker : Type 0 where
  pub consecutive_failures : ℕ
  pub open_until : ℕ

pub record Options : Type 0 where
  pub failure_threshold : ℕ
  pub cool_off : ℕ

-- `resolve4`, up to the request: whether one is sent. `encodable` is whether `encodeQuery` throws.
unfoldable pub sends_request : Breaker → ℕ → Bool → Bool
sends_request breaker now encodable = if ltb now breaker.open_until then false else encodable

-- What the transport calls back with: an error, or the body of the answer.
pub data Reply : Type 0 where
  failed : Reply
  body : List ℕ → Reply

-- What the caller gets: the fallback's answer, or these addresses.
pub data Outcome : Type 0 where
  fall_back : Outcome
  resolved : List Text → Outcome

-- `noteFailure`.
unfoldable pub note_failure : Options → Breaker → ℕ → Breaker
note_failure options breaker now =
    let failures = breaker.consecutive_failures + 1 in
    if failures == options.failure_threshold
    then record { consecutive_failures = failures; open_until = now + options.cool_off }
    else record breaker { consecutive_failures = failures }

-- The addresses of a reply; none at all counts as a failure.
unfoldable pub addresses_of : Reply → Option (List Text)
addresses_of failed = none
addresses_of (body b) = elim (decode_answer b) [
  | none ↦ none
  | some [] ↦ none
  | some (a ∷ more) ↦ some (a ∷ more)
]

-- The callback of the request.
unfoldable pub on_reply : Options → Breaker → ℕ → Reply → Breaker × Outcome
on_reply options breaker now reply = elim (addresses_of reply) [
  | none ↦ (note_failure options breaker now, fall_back)
  | some addresses ↦ (record breaker { consecutive_failures = 0 }, resolved addresses)
]
