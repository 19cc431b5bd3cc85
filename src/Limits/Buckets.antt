-- ===== src/Limits/Buckets.antt =====
-- src/node/ratelimit.js: how much a caller can get through, and how much is kept.
use better_nodejs_vless_ws.Base.{
  ℕ, ◌+◌, ◌*◌, ◌-◌, ◌≤◌, ◌≡◌, refl, Bool, true, false, none, some, List, [], ◌∷◌, if◌then◌else◌,
  leb, ◌==◌, length, min, arith, Option-cases, Bool-cases, inl, inr, ◌∙◌, ==_refl, ==_iff,
}
use better_nodejs_vless_ws.Base.Assoc.{map_get, map_set, length-map_set-le, map_get-map_set}
use better_nodejs_vless_ws.Limits.{Bucket, Limits, token, full, refilled, sweep, charge, allow}

-- A key that is there keeps the number of entries.
length-map_set_known {ℓ} :
    {V : Type ℓ} (k : ℕ) (v w : V) (m : List (ℕ × V))
    → map_get k m ≡ some w
    → length (map_set k v m) ≡ length m
unfolding map_get map_set
length-map_set_known k v w [] e = cc
length-map_set_known k v w ((j, u) ∷ m) e = ground (arith, length-map_set_known k v w m)

length-sweep-le : (l : Limits) (now : ℕ) (m : List (ℕ × Bucket)) → length (sweep l now m) ≤ length m
unfolding sweep
length-sweep-le l now [] = omega arith
length-sweep-le l now ((k, b) ∷ m) = ground (arith, length-sweep-le l now m)

charge-bounded :
    (l : Limits) (key now : ℕ) (b w : Bucket) (m : List (ℕ × Bucket))
    → map_get key m ≡ some w
    → length (charge l key now b m).1 ≡ length m
unfolding charge
charge-bounded l key now b w m e =
    let tokens : ℕ = min (full l) (refilled l b now) in
    ground (
      arith,
      length-map_set_known key (record { tokens = tokens; at = now }) w m e,
      length-map_set_known key (record { tokens = tokens - token l; at = now }) w m e,
    )

-- A table of at most `maxKeys` callers never grows beyond that, whoever calls: a new key is refused
-- when it would.
pub allow-bounded :
    (l : Limits) (key now : ℕ) (m : List (ℕ × Bucket))
    → length m ≤ l.max_keys
    → length (allow l key now m).1 ≤ l.max_keys
unfolding allow
allow-bounded l key now m h = elim (Option-cases (map_get key m)) [
  | inr (b, e) ↦ rw (e, allow) (omega (arith, charge-bounded l key now b b m e))
  | inl e ↦
      let room : List (ℕ × Bucket) = if leb l.max_keys (length m) then sweep l now m else m in
      let fresh : Bucket = record { tokens = full l; at = now } in
      rw (e, allow)
        (ground (
          arith,
          length-sweep-le l now m,
          charge-bounded l key now fresh fresh (map_set key fresh room)
              (map_get-map_set key key fresh room ∙ rw (==_refl key) refl),
          length-map_set-le key fresh room,
        ))
]

-- What a key can spend at a time: its refilled bucket, or a full one.
pub level : Limits → ℕ → ℕ → List (ℕ × Bucket) → ℕ
level l key now m = elim (map_get key m) [
  | none ↦ full l
  | some b ↦ min (full l) (refilled l b now)
]

level-cons :
    (l : Limits) (key now j : ℕ) (b : Bucket) (m : List (ℕ × Bucket))
    → level l key now ((j, b) ∷ m)
      ≡ (if j == key then min (full l) (refilled l b now) else level l key now m)
unfolding level map_get
level-cons l key now j b m = ground arith

level-le : (l : Limits) (key now : ℕ) (m : List (ℕ × Bucket)) → level l key now m ≤ full l
unfolding level
level-le l key now m = ground arith

mul_mono : (a b r : ℕ) → a ≤ b → a * r ≤ b * r
mul_mono a b r h = grind arith

level-later :
    (l : Limits) (key now dt : ℕ) (m : List (ℕ × Bucket))
    → level l key (now + dt) m ≤ level l key now m + dt * l.refill_tokens
unfolding level refilled
level-later l key now dt m = elim (Option-cases (map_get key m)) [
  | inl e ↦ rw (e, level) (omega arith)
  | inr (b, e) ↦
      rw (e, level)
        (omega (arith, mul_mono (now + dt - b.at) (now - b.at + dt) l.refill_tokens (omega arith)))
]

level-sweep :
    (l : Limits) (key now : ℕ) (m : List (ℕ × Bucket))
    → level l key now (sweep l now m) ≤ level l key now m
unfolding sweep
level-sweep l key now [] = omega arith
level-sweep l key now ((j, b) ∷ m) = ground (
  arith,
  level-cons l key now j b m,
  level-cons l key now j b (sweep l now m),
  level-sweep l key now m,
  level-le l key now (sweep l now m),
)

level-map_set :
    (l : Limits) (key now j : ℕ) (b : Bucket) (m : List (ℕ × Bucket))
    → level l key now (map_set j b m)
      ≡ (if j == key then min (full l) (refilled l b now) else level l key now m)
unfolding level
level-map_set l key now j b m = ground (arith, map_get-map_set j key b m)

-- What one call costs: a token if it lets the key through.
abbrev pub cost : Limits → ℕ → ℕ → Bool → ℕ
cost l key caller true = if caller == key then token l else 0
cost l key caller false = 0

level-charge :
    (l : Limits) (key caller now : ℕ) (b : Bucket) (m : List (ℕ × Bucket))
    → (if caller == key then min (full l) (refilled l b now) else level l key now m)
      ≤ level l key now m
    → level l key now (charge l caller now b m).1 + cost l key caller (charge l caller now b m).0
      ≤ level l key now m
unfolding charge refilled
level-charge l key caller now b m h =
    let tokens : ℕ = min (full l) (refilled l b now) in
    ground (
      arith,
      level-map_set l key now caller (record { tokens = tokens; at = now }) m,
      level-map_set l key now caller (record { tokens = tokens - token l; at = now }) m,
    )

level-absent :
    (l : Limits) (key now : ℕ) (m : List (ℕ × Bucket))
    → map_get key m ≡ none
    → level l key now m ≡ full l
unfolding level
level-absent l key now m e = rw (e, level) refl

level-present :
    (l : Limits) (key now : ℕ) (b : Bucket) (m : List (ℕ × Bucket))
    → map_get key m ≡ some b
    → level l key now m ≡ min (full l) (refilled l b now)
unfolding level
level-present l key now b m e = rw (e, level) refl

-- Making room for a key that is not there, with its full bucket, adds to nobody's level.
level-fresh :
    (l : Limits) (key caller now : ℕ) (fresh : Bucket) (room m : List (ℕ × Bucket))
    → map_get caller m ≡ none
    → level l key now room ≤ level l key now m
    → level l key now (map_set caller fresh room) ≤ level l key now m
level-fresh l key caller now fresh room m absent h = elim (Bool-cases (caller == key)) [
  | inr other ↦ rw (level-map_set l key now caller fresh room, other) h
  | inl same ↦
      let e : caller ≡ key = (==_iff caller key).0 same in
      let gone : map_get key m ≡ none = rw (← e) absent in
      omega (arith, level-absent l key now m gone, level-le l key now (map_set caller fresh room))
]

level-allow :
    (l : Limits) (key caller now : ℕ) (m : List (ℕ × Bucket))
    → level l key now (allow l caller now m).1 + cost l key caller (allow l caller now m).0
      ≤ level l key now m
unfolding allow
level-allow l key caller now m = elim (Option-cases (map_get caller m)) [
  | inr (b, e) ↦
      rw (e, allow)
        (level-charge l key caller now b m (ground (arith, level-present l caller now b m e)))
  | inl e ↦
      let room : List (ℕ × Bucket) = if leb l.max_keys (length m) then sweep l now m else m in
      let fresh : Bucket = record { tokens = full l; at = now } in
      let kept : level l key now room ≤ level l key now m =
        ground (arith, level-sweep l key now m) in
      let added : List (ℕ × Bucket) = map_set caller fresh room in
      rw (e, allow)
        (ground (
          arith,
          kept,
          level-fresh l key caller now fresh room m e kept,
          level-charge l key caller now fresh added
              (ground (arith, level-map_set l key now caller fresh room)),
        ))
]

-- The calls on one limiter: how long after the one before, and by whom.
pub run : Limits → ℕ → ℕ → List (ℕ × ℕ) → List (ℕ × Bucket) → ℕ × ℕ × List (ℕ × Bucket)
run l key now [] m = (0, now, m)
run l key now ((dt, caller) ∷ calls) m =
    let (granted, m') = allow l caller (now + dt) m in
    let (spent, later, m'') = run l key (now + dt) calls m' in
    (cost l key caller granted + spent, later, m'')

run-level :
    (l : Limits) (key now : ℕ) (calls : List (ℕ × ℕ)) (m : List (ℕ × Bucket))
    → (now ≤ (run l key now calls m).1)
      × ((run l key now calls m).0
          ≤ level l key now m + ((run l key now calls m).1 - now) * l.refill_tokens)
unfolding run
run-level l key now [] m = (omega arith, omega arith)
run-level l key now ((dt, caller) ∷ calls) m =
    let step : ℕ = now + dt in
    let m' : List (ℕ × Bucket) = (allow l caller step m).1 in
    let (forward, bound) = run-level l key step calls m' in
    let last : ℕ = (run l key step calls m').1 in
    let gap : last - now ≡ last - step + dt = omega arith in
    (
      omega arith,
      rw gap (omega (arith, bound, level-allow l key caller step m, level-later l key now dt m)),
    )

-- However the calls of all callers are mixed, one key gets through at most `capacity` times and
-- `refillPerSecond` times a second more, a fraction if need be: a token for each call granted to it
-- sums up to at most a full bucket and the refill of the time passed, in exact arithmetic. Sweeping
-- the table gives nobody extra tokens.
pub run_bounded :
    (l : Limits) (key now : ℕ) (calls : List (ℕ × ℕ)) (m : List (ℕ × Bucket))
    → (run l key now calls m).0 ≤ full l + ((run l key now calls m).1 - now) * l.refill_tokens
run_bounded l key now calls m = omega (arith, (run-level l key now calls m).1, level-le l key now m)
