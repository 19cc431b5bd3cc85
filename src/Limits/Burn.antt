-- ===== src/Limits/Burn.antt =====
-- src/node/tokens.js, `createBurnStore`: which invites have been used, and when.
use better_nodejs_vless_ws.Base.{
  ℕ, ◌+◌, ◌-◌, ◌≤◌, ◌<◌, ◌≡◌, refl, Bool, true, false, Option, none, some, List, [], ◌∷◌,
  if◌then◌else◌, ltb, leb, ◌==◌, length, arith, Option-cases, Bool-cases, inl, inr, ap, ==_refl,
  ==_iff,
}
use better_nodejs_vless_ws.Base.Assoc.{map_get, map_set, length-map_set-le, map_get-map_set}

pub record Used : Type 0 where
  pub first_used_at : ℕ
  pub expires_at : ℕ

unfoldable pub sweep_used : ℕ → List (ℕ × Used) → List (ℕ × Used)
sweep_used now [] = []
sweep_used now ((nonce, entry) ∷ rest) =
    let kept = sweep_used now rest in
    if leb entry.expires_at now then kept else (nonce, entry) ∷ kept

-- `claim`, `most` being the option `max`: the answer and the store afterwards.
unfoldable pub claim : ℕ → ℕ → ℕ → ℕ → ℕ → List (ℕ × Used) → Bool × List (ℕ × Used)
claim most nonce expires_at grace now seen = elim (map_get nonce seen) [
  | some hit ↦ (ltb (now - hit.first_used_at) grace, seen)
  | none ↦
      let room = if leb most (length seen) then sweep_used now seen else seen in
      if leb most (length room)
      then (false, room)
      else (true, map_set nonce (record { first_used_at = now; expires_at = expires_at }) room)
]

length-sweep_used-le :
    (now : ℕ) (seen : List (ℕ × Used)) → length (sweep_used now seen) ≤ length seen
unfolding sweep_used
length-sweep_used-le now [] = omega arith
length-sweep_used-le now ((k, u) ∷ seen) = ground (arith, length-sweep_used-le now seen)

expiry : Option Used → ℕ
expiry none = 0
expiry (some u) = u.expires_at

-- Sweeping keeps what has not expired.
map_get-sweep_used :
    (now nonce : ℕ) (hit : Used) (seen : List (ℕ × Used))
    → map_get nonce seen ≡ some hit
    → now < hit.expires_at
    → map_get nonce (sweep_used now seen) ≡ some hit
unfolding sweep_used map_get expiry
map_get-sweep_used now nonce hit [] e h = cc
map_get-sweep_used now nonce hit ((k, u) ∷ seen) e h =
    ground (arith, ap expiry e, map_get-sweep_used now nonce hit seen)

-- A store of at most `max` invites keeps at most `max` after any claim, granted or refused.
pub claim-bounded :
    (most nonce expires_at grace now : ℕ) (seen : List (ℕ × Used))
    → length seen ≤ most
    → length (claim most nonce expires_at grace now seen).1 ≤ most
unfolding claim
claim-bounded most nonce expires_at grace now seen h = elim (Option-cases (map_get nonce seen)) [
  | inr (hit, e) ↦ rw (e, claim) h
  | inl e ↦
      let room : List (ℕ × Used) = if leb most (length seen) then sweep_used now seen else seen in
      rw (e, claim)
        (ground (
          arith,
          length-sweep_used-le now seen,
          length-map_set-le nonce (record { first_used_at = now; expires_at = expires_at }) room,
        ))
]

-- Another invite's call, or this one's own, leaves the first use of an unexpired invite as it was.
claim-keeps :
    (most nonce other expires_at grace now : ℕ) (hit : Used) (seen : List (ℕ × Used))
    → map_get nonce seen ≡ some hit
    → now < hit.expires_at
    → map_get nonce (claim most other expires_at grace now seen).1 ≡ some hit
unfolding claim
claim-keeps most nonce other expires_at grace now hit seen e h =
    elim (Option-cases (map_get other seen)) [
      | inr (mine, found) ↦ rw (found, claim) e
      | inl absent ↦
          let room : List (ℕ × Used) =
            if leb most (length seen) then sweep_used now seen else seen in
          let fresh : Used = record { first_used_at = now; expires_at = expires_at } in
          let kept : map_get nonce room ≡ some hit =
            ground (arith, map_get-sweep_used now nonce hit seen e h) in
          rw (absent, claim)
            (elim (Bool-cases (other == nonce)) [
              | inl same ↦
                  let gone : map_get nonce seen ≡ none =
                    rw (← (==_iff other nonce).0 same) absent in
                  cc
              | inr differs ↦ ground (arith, kept, map_get-map_set other nonce fresh room)
            ])
    ]

-- A request for an invite: how long after the one before, which, and until when it is valid.
pub record Attempt : Type 0 where
  pub wait : ℕ
  pub nonce : ℕ
  pub expires_at : ℕ

-- The time and the store after the attempts.
unfoldable pub attempts : ℕ → ℕ → ℕ → List Attempt → List (ℕ × Used) → ℕ × List (ℕ × Used)
unfolding claim
attempts most grace now [] seen = (now, seen)
attempts most grace now (a ∷ rest) seen =
    attempts most grace (now + a.wait) rest
      (claim most a.nonce a.expires_at grace (now + a.wait) seen).1

later :
    (most grace now : ℕ) (rest : List Attempt) (seen : List (ℕ × Used))
    → now ≤ (attempts most grace now rest seen).0
unfolding attempts
later most grace now [] seen = omega arith
later most grace now (a ∷ rest) seen = omega (
  arith,
  later most grace (now + a.wait) rest
      (claim most a.nonce a.expires_at grace (now + a.wait) seen).1,
)

attempts-keep :
    (most grace now nonce : ℕ) (hit : Used) (rest : List Attempt) (seen : List (ℕ × Used))
    → map_get nonce seen ≡ some hit
    → (attempts most grace now rest seen).0 < hit.expires_at
    → map_get nonce (attempts most grace now rest seen).1 ≡ some hit
unfolding attempts
attempts-keep most grace now nonce hit [] seen e h = e
attempts-keep most grace now nonce hit (a ∷ rest) seen e h =
    let seen' : List (ℕ × Used) = (claim most a.nonce a.expires_at grace (now + a.wait) seen).1 in
    attempts-keep most grace (now + a.wait) nonce hit rest seen'
      (claim-keeps most nonce a.nonce a.expires_at grace (now + a.wait) hit seen e
        (omega (arith, later most grace (now + a.wait) rest seen')))
      h

claim-granted :
    (most nonce expires_at grace now : ℕ) (seen : List (ℕ × Used))
    → map_get nonce seen ≡ none
    → (claim most nonce expires_at grace now seen).0 ≡ true
    → map_get nonce (claim most nonce expires_at grace now seen).1
      ≡ some (record { first_used_at = now; expires_at = expires_at })
unfolding claim
claim-granted most nonce expires_at grace now seen absent =
    let room : List (ℕ × Used) = if leb most (length seen) then sweep_used now seen else seen in
    let fresh : Used = record { first_used_at = now; expires_at = expires_at } in
    rw (absent, claim) (ground (arith, map_get-map_set nonce nonce fresh room, ==_refl nonce))

-- An invite that is in the store is answered by its first use alone.
claim-known :
    (most nonce expires_at grace now : ℕ) (hit : Used) (seen : List (ℕ × Used))
    → map_get nonce seen ≡ some hit
    → (claim most nonce expires_at grace now seen).0 ≡ ltb (now - hit.first_used_at) grace
unfolding claim
claim-known most nonce expires_at grace now hit seen e = rw (e, claim) refl

-- Once an invite is granted for the first time, then whatever attempts at any invites follow,
-- and as long as its own expiry has not come, an attempt at it succeeds exactly when less than
-- the grace window has passed since that first time. (`nonce` is new: the store does not have it.)
pub claim_once :
    (most nonce expires_at grace now again : ℕ) (rest : List Attempt) (seen : List (ℕ × Used))
    → map_get nonce seen ≡ none
    → (claim most nonce expires_at grace now seen).0 ≡ true
    → (attempts most grace now rest (claim most nonce expires_at grace now seen).1).0 < expires_at
    → (claim most nonce again grace
        (attempts most grace now rest (claim most nonce expires_at grace now seen).1).0
        (attempts most grace now rest (claim most nonce expires_at grace now seen).1).1).0
      ≡ ltb
          ((attempts most grace now rest (claim most nonce expires_at grace now seen).1).0 - now)
          grace
claim_once most nonce expires_at grace now again rest seen absent granted h =
    let hit : Used = record { first_used_at = now; expires_at = expires_at } in
    let seen' : List (ℕ × Used) = (claim most nonce expires_at grace now seen).1 in
    let (last, store) = attempts most grace now rest seen' in
    claim-known most nonce again grace last hit store (
      attempts-keep most grace now nonce hit rest seen'
        (claim-granted most nonce expires_at grace now seen absent granted) h)
