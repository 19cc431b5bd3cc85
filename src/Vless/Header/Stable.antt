-- ===== src/Vless/Header/Stable.antt =====
-- `parseVlessHeader` of src/vless.js as the header arrives in pieces.
use better_nodejs_vless_ws.Base.{
  ℕ, zero, suc, ◌+◌, ◌*◌, ◌≤◌, ◌<◌, ◌≡◌, refl, ◌≢◌, Option, none, some, List, ◌++◌, arith, length,
  sub-append, get_or-append, get_elem?-append_left, length-append,
}
use better_nodejs_vless_ws.Base.Bytes.{byte, word}
use better_nodejs_vless_ws.Vless.Address.{Unicode, ipv4_text, ipv6_text, hex_groups}
use better_nodejs_vless_ws.Vless.Header.{
  User, Auth, single, registry, need, match_from, match_bytes, lookup_user, parse_address,
  parse_command, parse_user, parse_vless_header,
}

-- Reads of a prefix do not change when bytes are added behind it.
module _ (p more : List ℕ) where
  byte-append : (i : ℕ) → i < length p → byte (p ++ more) i ≡ byte p i
  byte-append i h = get_or-append p more i 0 h

  ipv4_text-append : (pos : ℕ) → pos + 4 ≤ length p → ipv4_text (p ++ more) pos ≡ ipv4_text p pos
  unfolding ipv4_text
  ipv4_text-append pos h = rw (
    byte-append pos (omega arith),
    byte-append (pos + 1) (omega arith),
    byte-append (pos + 2) (omega arith),
    byte-append (pos + 3) (omega arith),
  )

  pub hex_groups-append :
      (n pos : ℕ) → pos + 2 * n ≤ length p → hex_groups (p ++ more) pos n ≡ hex_groups p pos n
  unfolding hex_groups
  hex_groups-append zero pos h = refl
  hex_groups-append (suc n) pos h = rw (
    byte-append pos (omega arith),
    byte-append (pos + 1) (omega arith),
    hex_groups-append n (pos + 2) (omega arith),
  )

  ipv6_text-append : (pos : ℕ) → pos + 16 ≤ length p → ipv6_text (p ++ more) pos ≡ ipv6_text p pos
  unfolding ipv6_text
  ipv6_text-append pos h = rw (hex_groups-append 8 pos (omega arith))

  match_from-append :
      (off : ℕ) (uuid : List ℕ) (n i : ℕ)
      → off + i + n ≤ length p
      → match_from (p ++ more) off uuid i n ≡ match_from p off uuid i n
  unfolding match_from
  match_from-append off uuid zero i h = refl
  match_from-append off uuid (suc n) i h = rw (
    get_elem?-append_left p more (off + i) (omega arith),
    match_from-append off uuid n (i + 1) (omega arith),
  )

  parse_address-append :
      (unicode : Unicode) (cmd port at : ℕ) (user : User)
      → at < length p
      → parse_address unicode p cmd port at user ≢ need
      → parse_address unicode (p ++ more) cmd port at user
        ≡ parse_address unicode p cmd port at user
  unfolding parse_address
  parse_address-append unicode cmd port at user h decided = ground (
    arith,
    length-append p more,
    byte-append at,
    byte-append (at + 1),
    ipv4_text-append (at + 1),
    ipv6_text-append (at + 1),
    sub-append p more (at + 1 + 1) (at + 1 + 1 + byte p (at + 1)),
  )

  parse_command-append :
      (unicode : Unicode) (at : ℕ) (user : User)
      → parse_command unicode p at user ≢ need
      → parse_command unicode (p ++ more) at user ≡ parse_command unicode p at user
  unfolding parse_command
  parse_command-append unicode at user decided = ground (
    arith,
    length-append p more,
    byte-append at,
    byte-append (at + 1),
    byte-append (at + 1 + 1),
    parse_address-append unicode (byte p at) (word p (at + 1)) (at + 1 + 2) user,
  )

-- A credential test reads the 16 bytes of the credential and nothing behind them.
abbrev pub IsLocal : Auth → Type 0
IsLocal (single uuid) = Unit {0}
IsLocal (registry lookup) = (p more : List ℕ) → 17 ≤ length p → lookup (p ++ more) 1 ≡ lookup p 1

lookup_user-append :
    (auth : Auth) (p more : List ℕ)
    → IsLocal auth
    → 17 ≤ length p
    → lookup_user auth (p ++ more) ≡ lookup_user auth p
unfolding lookup_user match_bytes
lookup_user-append (single uuid) p more local h =
    rw (match_from-append p more 1 uuid 16 0 (omega arith))
lookup_user-append (registry lookup) p more local h = local p more h

parse_user-append :
    (unicode : Unicode) (p more : List ℕ) (found : Option User)
    → 18 ≤ length p
    → parse_user unicode p found ≢ need
    → parse_user unicode (p ++ more) found ≡ parse_user unicode p found
unfolding parse_user
parse_user-append unicode p more none h decided = refl
parse_user-append unicode p more (some user) h decided =
    rw (byte-append p more 17 (omega arith))
      (parse_command-append p more unicode (18 + byte p 17) user decided)

-- An answer is final: once the bytes received decide the request, accepted or refused, no bytes
-- that follow change the answer. The credential test must look at the credential only.
pub parse_vless_header-append :
    (unicode : Unicode) (auth : Auth) (p more : List ℕ)
    → IsLocal auth
    → parse_vless_header unicode auth p ≢ need
    → parse_vless_header unicode auth (p ++ more) ≡ parse_vless_header unicode auth p
unfolding parse_vless_header
parse_vless_header-append unicode auth p more local decided = ground (
  arith,
  length-append p more,
  byte-append p more 0,
  lookup_user-append auth p more local,
  parse_user-append unicode p more (lookup_user auth p),
)
