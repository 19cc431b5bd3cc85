-- ===== src/Users/Lookup.antt =====
-- src/node/users.js: the lookup by buckets finds what a search of all credentials finds.
use better_nodejs_vless_ws.Base.{
  ℕ, ◌+◌, ◌≡◌, refl, ap, sym, ◌∙◌, true, Option, none, some, List, [], ◌∷◌, ◌++◌, if◌then◌else◌,
  ◌==◌, get_elem?, arith, append_assoc, append-nil, Bool-cases, inl, inr, ==_iff,
}
use better_nodejs_vless_ws.Base.Text.{Text}
use better_nodejs_vless_ws.Base.Bytes.{byte, elem_byte}
use better_nodejs_vless_ws.Base.Assoc.{map_get, map_get-map_set}
use better_nodejs_vless_ws.Vless.Header.{match_from, same_byte}
use better_nodejs_vless_ws.Users.{
  Credential, Slot, one, many, add_to, bucket_key, matches, add, add_all, first_match, lookup,
  create_buckets, registered,
}

abbrev value : Option ℕ → ℕ
value none = 0
value (some b) = b

same_value : (x y : Option ℕ) → same_byte x y ≡ true → value x ≡ value y
unfolding same_byte
same_value none none h = refl
same_value none (some y) h = cc
same_value (some x) none h = cc
same_value (some x) (some y) h = ground arith

same_byte-eq :
    (xs ys : List ℕ) (i j : ℕ)
    → same_byte (get_elem? xs i) (get_elem? ys j) ≡ true
    → byte xs i ≡ byte ys j
same_byte-eq xs ys i j h =
    rw (← elem_byte xs i, ← elem_byte ys j) (same_value (get_elem? xs i) (get_elem? ys j) h)

-- Equal credentials have equal bucket keys.
matches-bucket_key :
    (user : Credential) (payload : List ℕ) (off : ℕ)
    → matches user payload off ≡ true
    → bucket_key user.bytes 0 ≡ bucket_key payload off
unfolding matches bucket_key match_from
matches-bucket_key user payload off h = ground (
  arith,
  same_byte-eq payload user.bytes (off + 0) 0,
  same_byte-eq payload user.bytes (off + 1) 1,
  same_byte-eq payload user.bytes (off + 2) 2,
  same_byte-eq payload user.bytes (off + 3) 3,
)

abbrev slot_users : Slot → List Credential
slot_users (one user) = user ∷ []
slot_users (many users) = users

abbrev users_in : Option Slot → List Credential
users_in none = []
users_in (some slot) = slot_users slot

-- The users in the bucket of a key.
bucket_users : ℕ → List (ℕ × Slot) → List Credential
bucket_users k buckets = users_in (map_get k buckets)

users_in-add_to :
    (o : Option Slot) (user : Credential) → slot_users (add_to o user) ≡ users_in o ++ user ∷ []
users_in-add_to none user = refl
users_in-add_to (some (many users)) user = refl
users_in-add_to (some (one hit)) user = refl

bucket_users-add :
    (k : ℕ) (user : Credential) (buckets : List (ℕ × Slot))
    → bucket_users k (add user buckets) ≡ (
        if bucket_key user.bytes 0 == k
        then bucket_users k buckets ++ user ∷ []
        else bucket_users k buckets)
unfolding bucket_users add
bucket_users-add k user buckets =
    let key : ℕ = bucket_key user.bytes 0 in
    let slot : Slot = add_to (map_get key buckets) user in
    ap users_in (map_get-map_set key k slot buckets) ∙ elim (Bool-cases (key == k)) [
      | inl same ↦
          let e : key ≡ k = (==_iff key k).0 same in
          rw same (users_in-add_to (map_get key buckets) user ∙ rw e refl)
      | inr other ↦ rw other refl
    ]

-- The users whose credential has that key, in order.
with_key : ℕ → List Credential → List Credential
with_key k [] = []
with_key k (user ∷ users) =
    let rest = with_key k users in if bucket_key user.bytes 0 == k then user ∷ rest else rest

bucket_users-add_all :
    (k : ℕ) (users : List Credential) (buckets : List (ℕ × Slot))
    → bucket_users k (add_all users buckets) ≡ bucket_users k buckets ++ with_key k users
unfolding add_all with_key
bucket_users-add_all k [] buckets = sym (append-nil (bucket_users k buckets))
bucket_users-add_all k (user ∷ users) buckets =
    bucket_users-add_all k users (add user buckets)
    ∙ elim (Bool-cases (bucket_key user.bytes 0 == k)) [
      | inl same ↦
          rw (bucket_users-add k user buckets, same)
            (append_assoc (bucket_users k buckets) (user ∷ []) (with_key k users))
      | inr other ↦ rw (bucket_users-add k user buckets, other) refl
    ]

first_match-with_key :
    (users : List Credential) (payload : List ℕ) (off : ℕ)
    → first_match (with_key (bucket_key payload off) users) payload off
      ≡ first_match users payload off
unfolding with_key first_match
first_match-with_key [] payload off = refl
first_match-with_key (user ∷ users) payload off =
    ground (arith, first_match-with_key users payload off, matches-bucket_key user payload off)

lookup-bucket_users :
    (buckets : List (ℕ × Slot)) (payload : List ℕ) (off : ℕ)
    → lookup buckets payload off
      ≡ first_match (bucket_users (bucket_key payload off) buckets) payload off
unfolding lookup bucket_users first_match
lookup-bucket_users buckets payload off = ground arith

-- The buckets find what a search of all credentials would: the first one in the order of the
-- registry (the owner, then each label under each secret) whose 16 bytes stand in the payload at
-- that offset, and nothing if there is none.
pub lookup-create_buckets :
    (hmac : Text → Text → List ℕ) (owner : Option (List ℕ)) (secrets labels : List Text)
    (payload : List ℕ) (off : ℕ)
    → lookup (create_buckets hmac owner secrets labels) payload off
      ≡ first_match (registered hmac owner secrets labels) payload off
unfolding create_buckets with_key first_match bucket_users map_get
lookup-create_buckets hmac owner secrets labels payload off =
    let users : List Credential = registered hmac owner secrets labels in
    lookup-bucket_users (add_all users []) payload off
    ∙ ap (λ us. first_match us payload off) (bucket_users-add_all (bucket_key payload off) users [])
    ∙ first_match-with_key users payload off
