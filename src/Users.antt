-- ===== src/Users.antt =====
-- src/node/users.js: the credentials that the server accepts.
-- `hmac` is `createHmac('sha256', secret).update(text).digest()`. A secret is a text.
pub mod Labels
pub mod Lookup
pub mod Uuid
pub mod Mintable
use better_nodejs_vless_ws.Base.{
  ℕ, zero, suc, ◌+◌, ◌*◌, ◌%◌, ◌^◌, Bool, true, false, ◌&&◌, ◌||◌, not, Option, none, some, List,
  [], ◌∷◌, ◌++◌, if◌then◌else◌, ltb, leb, ◌==◌, length, take, set, map,
}
use better_nodejs_vless_ws.Base.Text.{Text, codes, text_eq}
use better_nodejs_vless_ws.Base.Bytes.{byte}
use better_nodejs_vless_ws.Base.Assoc.{map_get, map_set}
use better_nodejs_vless_ws.Vless.Header.{match_from}

-- `uuid` is left out: it is `bytes` as text.
pub record Credential : Type 0 where
  pub label : Text
  pub bytes : List ℕ

abbrev pub legacy_label : Text
legacy_label = codes "owner"

abbrev pub uuid_tag : Text
uuid_tag = codes "vless-uuid-v1" ++ 10 ∷ []

abbrev pub max_users : ℕ
max_users = 64

-- `deriveUser`: version 4 in byte 6, the variant in byte 8.
unfoldable pub derive_user : (Text → Text → List ℕ) → Text → Text → Credential
derive_user hmac secret label =
    let raw = take 16 (hmac secret (uuid_tag ++ label)) in
    let versioned = set raw 6 (byte raw 6 % 16 + 64) in
    record { label = label; bytes = set versioned 8 (byte versioned 8 % 64 + 128) }

-- `bucketKey`.
unfoldable pub bucket_key : List ℕ → ℕ → ℕ
bucket_key payload off =
    byte payload off * 2 ^ 24
    + byte payload (off + 1) * 2 ^ 16
    + byte payload (off + 2) * 2 ^ 8
    + byte payload (off + 3)

-- `matches`: the loop of `matchBytes`.
unfoldable pub matches : Credential → List ℕ → ℕ → Bool
matches user payload off = match_from payload off user.bytes 0 16

-- A value of `buckets`: one user, or an array of them.
pub data Slot : Type 0 where
  one : Credential → Slot
  many : List Credential → Slot

-- What `add` puts in the place of what was there.
abbrev pub add_to : Option Slot → Credential → Slot
add_to none user = one user
add_to (some (many users)) user = many (users ++ user ∷ [])
add_to (some (one hit)) user = many (hit ∷ user ∷ [])

-- `add`.
unfoldable pub add : Credential → List (ℕ × Slot) → List (ℕ × Slot)
add user buckets =
    let key = bucket_key user.bytes 0 in map_set key (add_to (map_get key buckets) user) buckets

-- The loop of `lookup` over an array.
unfoldable pub first_match : List Credential → List ℕ → ℕ → Option Credential
first_match [] payload off = none
first_match (user ∷ users) payload off =
    if matches user payload off then some user else first_match users payload off

-- `lookup`.
unfoldable pub lookup : List (ℕ × Slot) → List ℕ → ℕ → Option Credential
lookup buckets payload off = elim (map_get (bucket_key payload off) buckets) [
  | none ↦ none
  | some (one hit) ↦ if matches hit payload off then some hit else none
  | some (many users) ↦ first_match users payload off
]

-- `secrets.filter(...)`.
unfoldable pub usable : List Text → List Text
usable [] = []
usable ([] ∷ secrets) = usable secrets
usable ((c ∷ cs) ∷ secrets) = (c ∷ cs) ∷ usable secrets

-- The users that the loops of `createUserRegistry` add, in that order.
unfoldable pub derive_all : (Text → Text → List ℕ) → List Text → List Text → List Credential
derive_all hmac secrets [] = []
derive_all hmac secrets (label ∷ labels) =
    map (λ secret. derive_user hmac secret label) (usable secrets) ++ derive_all hmac secrets labels

-- The owner comes first. `owner` holds the bytes of `legacyUuid`.
abbrev pub registered :
    (Text → Text → List ℕ) → Option (List ℕ) → List Text → List Text → List Credential
registered hmac none secrets labels = derive_all hmac secrets labels
registered hmac (some owner) secrets labels =
    record { label = legacy_label; bytes = owner } ∷ derive_all hmac secrets labels

unfoldable pub add_all : List Credential → List (ℕ × Slot) → List (ℕ × Slot)
add_all [] buckets = buckets
add_all (user ∷ users) buckets = add_all users (add user buckets)

-- `buckets` as `createUserRegistry` leaves it.
unfoldable pub create_buckets :
    (Text → Text → List ℕ) → Option (List ℕ) → List Text → List Text → List (ℕ × Slot)
create_buckets hmac owner secrets labels = add_all (registered hmac owner secrets labels) []
