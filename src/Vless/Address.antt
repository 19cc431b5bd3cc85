-- ===== src/Vless/Address.antt =====
-- src/vless.js: addresses on the wire, `isBlockedDomain` and `parseMuxAddress`.
pub mod Blocked
use better_nodejs_vless_ws.Base.{
  ℕ, zero, suc, ◌+◌, ◌-◌, ◌*◌, ◌≤◌, ◌<◌, Bool, true, false, ◌&&◌, ◌||◌, Option, none, some, List,
  [], ◌∷◌, ◌++◌, map, if◌then◌else◌, ltb, leb, ◌==◌, length, get_or, sub,
}
use better_nodejs_vless_ws.Base.Bytes.{byte, word}
use better_nodejs_vless_ws.Base.Text.{
  Text, codes, text_eq, ends_with, decimal, hexadecimal, join_text,
}

-- What the platform does with bytes and characters beyond ASCII: `TextDecoder` and the case
-- tables of `toLowerCase`.
pub record Unicode : Type 0 where
  pub decode_wide : List ℕ → Text
  pub lower_wide : Text → Text

unfoldable pub all_ascii : List ℕ → Bool
all_ascii [] = true
all_ascii (b ∷ bs) = ltb b 128 && all_ascii bs

-- `DEC.decode(bytes)`.
unfoldable pub decode : Unicode → List ℕ → Text
unfolding all_ascii
decode unicode bytes = if all_ascii bytes then bytes else unicode.decode_wide bytes

lower_ascii : ℕ → ℕ
lower_ascii c = if leb b'A' c && leb c b'Z' then c + 32 else c

unfoldable pub to_lower : Unicode → Text → Text
unfolding all_ascii lower_ascii
to_lower unicode text = if all_ascii text then map lower_ascii text else unicode.lower_wide text

abbrev pub blocked_domains : List Text
blocked_domains =
    codes "speedtest.net"
    ∷ codes "fast.com"
    ∷ codes "speedtest.cn"
    ∷ codes "speed.cloudflare.com"
    ∷ codes "speedof.me"
    ∷ codes "testmy.net"
    ∷ codes "bandwidth.place"
    ∷ codes "speed.io"
    ∷ codes "librespeed.org"
    ∷ codes "speedcheck.org"
    ∷ []

-- `BLOCKED_SET.has`.
unfoldable pub contains : List Text → Text → Bool
contains [] host = false
contains (d ∷ ds) host = text_eq d host || contains ds host

-- The loop of `isBlockedDomain`.
unfoldable pub below_any : List Text → Text → Bool
below_any [] host = false
below_any (d ∷ ds) host = ends_with host (codes "." ++ d) || below_any ds host

unfoldable pub is_blocked_domain : Unicode → Text → Bool
is_blocked_domain unicode [] = false
is_blocked_domain unicode (c ∷ cs) =
    let lower = to_lower unicode (c ∷ cs) in
    if contains blocked_domains lower then true else below_any blocked_domains lower

unfoldable pub ipv4_text : List ℕ → ℕ → Text
ipv4_text bytes pos =
    decimal (byte bytes pos)
    ++ codes "."
    ++ decimal (byte bytes (pos + 1))
    ++ codes "."
    ++ decimal (byte bytes (pos + 2))
    ++ codes "."
    ++ decimal (byte bytes (pos + 3))

-- The loop over `j`, with `n` rounds left.
unfoldable pub hex_groups : List ℕ → ℕ → ℕ → List Text
hex_groups bytes pos zero = []
hex_groups bytes pos (suc n) = hexadecimal (word bytes pos) ∷ hex_groups bytes (pos + 2) n

unfoldable pub ipv6_text : List ℕ → ℕ → Text
unfolding hex_groups
ipv6_text bytes pos = join_text (codes ":") (hex_groups bytes pos 8)

pub record Target : Type 0 where
  pub host : Text
  pub end_pos : ℕ

unfoldable pub parse_mux_address : Unicode → List ℕ → ℕ → Option Target
parse_mux_address unicode meta off =
    let atyp = byte meta off in
    let pos = off + 1 in
    let hlen = byte meta pos in
    if ltb (length meta) (off + 1)
    then none
    else if atyp == 1
    then if ltb (length meta) (pos + 4)
      then none
      else some (record { host = ipv4_text meta pos; end_pos = pos + 4 })
    else if atyp == 2
    then if hlen == 0 || ltb (length meta) (pos + 1 + hlen)
      then none
      else some (record {
        host = decode unicode (sub meta (pos + 1) (pos + 1 + hlen));
        end_pos = pos + 1 + hlen;
      })
    else if atyp == 3
    then if ltb (length meta) (pos + 16)
      then none
      else some (record { host = ipv6_text meta pos; end_pos = pos + 16 })
    else none
