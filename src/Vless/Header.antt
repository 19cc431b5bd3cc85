-- ===== src/Vless/Header.antt =====
-- src/vless.js, `parseVlessHeader`: the request header at the front of a tunnel.
pub mod Stable
pub mod RoundTrip
pub mod Bounds
use better_nodejs_vless_ws.Base.{
  ℕ, zero, suc, ◌+◌, ◌*◌, Bool, true, false, ◌&&◌, ◌||◌, not, Option, none, some, List, [], ◌∷◌,
  if◌then◌else◌, ltb, ◌==◌, length, get_elem?, sub,
}
use better_nodejs_vless_ws.Base.Text.{Text, codes}
use better_nodejs_vless_ws.Base.Bytes.{byte, word}
use better_nodejs_vless_ws.Vless.Address.{Unicode, decode, ipv4_text, ipv6_text, is_blocked_domain}

-- The part of a user that the parser hands on: its label.
pub record User : Type 0 where
  pub label : Text

abbrev pub anon_user : User
anon_user = record { label = [] }

-- The texts of `reason`, as data.
pub data Reason : Type 0 where
  bad_version uuid_mismatch : Reason
  unknown_command unknown_atyp : ℕ → Reason
  blocked_domain : Text → Reason

pub record Request : Type 0 where
  pub cmd : ℕ
  pub host : Text
  pub port : ℕ
  pub header_end : ℕ
  pub user : User

pub data Parsed : Type 0 where
  need : Parsed
  fail : Reason → Parsed
  ok : Request → Parsed

-- `a[i] !== b[j]`, where a read out of bounds is `undefined`.
unfoldable pub same_byte : Option ℕ → Option ℕ → Bool
same_byte none none = true
same_byte none (some y) = false
same_byte (some x) none = false
same_byte (some x) (some y) = x == y

-- The loop over the 16 bytes, from index `i` on with `n` rounds left.
unfoldable pub match_from : List ℕ → ℕ → List ℕ → ℕ → ℕ → Bool
unfolding same_byte
match_from payload off uuid i zero = true
match_from payload off uuid i (suc n) =
    let rest = match_from payload off uuid (i + 1) n in
    if not (same_byte (get_elem? payload (off + i)) (get_elem? uuid i)) then false else rest

unfoldable pub match_bytes : List ℕ → ℕ → List ℕ → Option User
match_bytes payload off uuid = if match_from payload off uuid 0 16 then some anon_user else none

-- `auth`: one credential, or an object with a `lookup` method.
pub data Auth : Type 0 where
  single : List ℕ → Auth
  registry : (List ℕ → ℕ → Option User) → Auth

unfoldable pub lookup_user : Auth → List ℕ → Option User
lookup_user (single uuid) payload = match_bytes payload 1 uuid
lookup_user (registry lookup) payload = lookup payload 1

-- The end of the parse: the blocklist, then the answer.
unfoldable pub finish : Unicode → ℕ → Text → ℕ → ℕ → User → Parsed
finish unicode cmd host port pos user =
    if is_blocked_domain unicode host
    then fail (blocked_domain host)
    else ok (record { cmd = cmd; host = host; port = port; header_end = pos; user = user })

-- From the address type at `pos` on.
unfoldable pub parse_address : Unicode → List ℕ → ℕ → ℕ → ℕ → User → Parsed
parse_address unicode payload cmd port at user =
    let atyp = byte payload at in
    let pos = at + 1 in
    let hlen = byte payload pos in
    if atyp == 1
    then if ltb (length payload) (pos + 4)
      then need
      else finish unicode cmd (ipv4_text payload pos) port (pos + 4) user
    else if atyp == 2
    then if ltb (length payload) (pos + 1)
      then need
      else if ltb (length payload) (pos + 1 + hlen)
      then need
      else finish unicode cmd (decode unicode (sub payload (pos + 1) (pos + 1 + hlen))) port
          (pos + 1 + hlen) user
    else if atyp == 3
    then if ltb (length payload) (pos + 16)
      then need
      else finish unicode cmd (ipv6_text payload pos) port (pos + 16) user
    else if atyp == 0
    then finish unicode cmd (codes "0.0.0.0") port pos user
    else fail (unknown_atyp atyp)

-- From the command at `at` on, once the credential is accepted.
unfoldable pub parse_command : Unicode → List ℕ → ℕ → User → Parsed
parse_command unicode payload at user =
    let cmd = byte payload at in
    let pos = at + 1 in
    if ltb (length payload) (at + 1)
    then need
    else if cmd == 3
    then ok (record { cmd = cmd; host = codes "0.0.0.0"; port = 0; header_end = pos; user = user })
    else if not (cmd == 1) && not (cmd == 2)
    then fail (unknown_command cmd)
    else if ltb (length payload) (pos + 3)
    then need
    else parse_address unicode payload cmd (word payload pos) (pos + 2) user

parse_user : Unicode → List ℕ → Option User → Parsed
parse_user unicode payload none = fail uuid_mismatch
parse_user unicode payload (some user) = parse_command unicode payload (18 + byte payload 17) user

unfoldable pub parse_vless_header : Unicode → Auth → List ℕ → Parsed
unfolding parse_user
parse_vless_header unicode auth payload =
    if ltb (length payload) 18
    then need
    else if not (byte payload 0 == 0)
    then fail bad_version
    else parse_user unicode payload (lookup_user auth payload)
