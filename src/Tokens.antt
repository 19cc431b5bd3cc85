-- ===== src/Tokens.antt =====
-- src/node/tokens.js: signed admin sessions and invites. Times are whole seconds.
--
-- `Crypto` is what the platform provides: HMAC-SHA256, the base64url encoding without padding, and
-- `Number` on a text. Of a number only its being a safe integer matters, and which. Secrets and keys
-- are byte lists.
pub mod Signed
pub mod RoundTrip
use better_nodejs_vless_ws.Base.{
  ℕ, zero, suc, ◌+◌, Bool, true, false, ◌&&◌, ◌||◌, not, Option, none, some, List, [], ◌∷◌, ◌++◌,
  if◌then◌else◌, ltb, leb, ◌==◌, length, take, drop,
}
use better_nodejs_vless_ws.Base.Text.{Text, codes, text_eq, decimal}
use better_nodejs_vless_ws.Base.Strings.{last_index_of, split_on}

-- `Number.isSafeInteger` of a number, and its value.
pub data SafeInteger : Type 0 where
  unsafe_number : SafeInteger
  negative : ℕ → SafeInteger
  natural : ℕ → SafeInteger

pub record Crypto : Type 0 where
  pub hmac : List ℕ → Text → List ℕ
  pub base64url : List ℕ → Text
  pub number : Text → SafeInteger

abbrev pub session_tag : Text
session_tag = codes "adm-session-v1"

abbrev pub invite_tag : Text
invite_tag = codes "invite-v1"

abbrev pub subkey_tag : Text
subkey_tag = codes "subkey-v1"

abbrev pub mac_bytes : ℕ
mac_bytes = 16

-- `constantTimeEqual`; well-formed texts are equal when their encodings
-- are, and `none` is not a string.
unfoldable pub constant_time_equal : Option Text → Option Text → Bool
constant_time_equal none b = false
constant_time_equal (some a) none = false
constant_time_equal (some a) (some b) = text_eq a b

-- `tokensMatch`.
unfoldable pub tokens_match : Option Text → Option Text → Bool
tokens_match given none = false
tokens_match given (some []) = false
tokens_match given (some (c ∷ cs)) = constant_time_equal given (some (c ∷ cs))

-- The text that is signed.
abbrev pub signed_text : Text → Text → Text
signed_text tag body = tag ++ (10 ∷ body)

-- `subkey`.
unfoldable pub subkey : Crypto → List ℕ → Text → List ℕ
subkey crypto master tag = crypto.hmac master (signed_text subkey_tag tag)

-- `sign`.
unfoldable pub sign : Crypto → List ℕ → Text → Text → Text
sign crypto key tag body =
    crypto.base64url (take mac_bytes (crypto.hmac key (signed_text tag body)))

pub record Parts : Type 0 where
  pub body : Text
  pub mac : Text

-- The end of `splitMac`, at the place of the last dot.
unfoldable pub cut_at : Text → Option ℕ → Option Parts
cut_at token none = none
cut_at token (some zero) = none
cut_at token (some (suc i)) =
    if suc i + 1 == length token
    then none
    else some (record { body = take (suc i) token; mac = drop (suc (suc i)) token })

-- `splitMac`; `none` is not a string.
unfoldable pub split_mac : Option Text → ℕ → Option Parts
split_mac none max_len = none
split_mac (some token) max_len =
    if ltb (length token) 8 || ltb max_len (length token)
    then none
    else cut_at token (last_index_of b'.' token)

-- `mintSession`, at the second `now`.
unfoldable pub mint_session : Crypto → List ℕ → ℕ → ℕ → Text
mint_session crypto key ttl now =
    let body = codes "1." ++ decimal (now + ttl) in
    body ++ (b'.' ∷ sign crypto key session_tag body)

-- `Number.isSafeInteger(exp) && exp > nowSeconds(now)`.
unfoldable pub is_later : SafeInteger → ℕ → Bool
is_later unsafe_number now = false
is_later (negative n) now = false
is_later (natural exp) now = ltb now exp

-- The fields of a signed session.
unfoldable pub session_fields : Crypto → List Text → ℕ → Bool
session_fields crypto (version ∷ exp ∷ []) now =
    text_eq version (codes "1") && is_later (crypto.number exp) now
session_fields crypto fields now = false

-- `verifySession`.
unfoldable pub verify_session : Crypto → List ℕ → Option Text → ℕ → Bool
verify_session crypto key value now = elim (split_mac value 128) [
  | none ↦ false
  | some parts ↦
      if constant_time_equal (some parts.mac) (some (sign crypto key session_tag parts.body))
      then session_fields crypto (split_on b'.' parts.body) now
      else false
]

pub record Minted : Type 0 where
  pub token : Text
  pub exp : ℕ

abbrev pub invite_body : ℕ → Text → Text → Text
invite_body exp label nonce = codes "1." ++ (decimal exp ++ (b'.' ∷ (label ++ (b'.' ∷ nonce))))

-- `mintInvite`.
unfoldable pub mint_invite : Crypto → List ℕ → Text → ℕ → Text → ℕ → Minted
mint_invite crypto key label ttl nonce now =
    let exp = now + ttl in
    let body = invite_body exp label nonce in
    record { token = body ++ (b'.' ∷ sign crypto key invite_tag body); exp = exp }

-- What `verifyInvite` answers: a forged token, a stale one with its label and nonce, or a valid one
-- with its label, expiry and nonce.
pub data Verdict : Type 0 where
  forged : Verdict
  stale : Text → Text → Verdict
  valid : Text → ℕ → Text → Verdict

-- The comparison with the clock.
unfoldable pub judge : SafeInteger → Text → Text → ℕ → Verdict
judge unsafe_number label nonce now = forged
judge (negative n) label nonce now = stale label nonce
judge (natural exp) label nonce now =
    if leb exp now then stale label nonce else valid label exp nonce

-- The fields of a signed invite. An unsafe number is refused before the label is looked at, with the
-- same answer.
unfoldable pub invite_fields : Crypto → List Text → ℕ → Verdict
invite_fields crypto (version ∷ exp ∷ (l ∷ ls) ∷ (n ∷ ns) ∷ []) now =
    if text_eq version (codes "1") then judge (crypto.number exp) (l ∷ ls) (n ∷ ns) now else forged
invite_fields crypto fields now = forged

-- `verifyInvite`.
unfoldable pub verify_invite : Crypto → List ℕ → Option Text → ℕ → Verdict
verify_invite crypto key token now = elim (split_mac token 200) [
  | none ↦ forged
  | some parts ↦
      if constant_time_equal (some parts.mac) (some (sign crypto key invite_tag parts.body))
      then invite_fields crypto (split_on b'.' parts.body) now
      else forged
]
