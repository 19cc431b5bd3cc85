-- ===== src/Mux/Reply.antt =====
-- src/node/mux.js: the replies of a UDP substream, with the address they come from.
use better_nodejs_vless_ws.Base.{
  ℕ, ◌+◌, ◌-◌, ◌*◌, ◌%◌, true, ◌&&◌, List, [], ◌∷◌, if◌then◌else◌, length, drop,
}
use better_nodejs_vless_ws.Base.Text.{Text, codes}
use better_nodejs_vless_ws.Base.Bytes.{shr32}
use better_nodejs_vless_ws.Base.Strings.{split_on, starts_with}
use better_nodejs_vless_ws.DnsCache.{is_digits}
use better_nodejs_vless_ws.Mux.{Mux, Effect, is_dead, add_rx, send_mux}
use better_nodejs_vless_ws.Mux.Meta.{meta_keep}

-- `parseInt(digits, 10)`, of the digits read so far and those that are left.
unfoldable pub parse_digits : ℕ → Text → ℕ
parse_digits n [] = n
parse_digits n (c ∷ cs) = parse_digits (n * 10 + (c - b'0')) cs

-- Without the prefix of an IPv4 address in an IPv6 one.
unfoldable pub strip_mapped : Text → Text
strip_mapped address = if starts_with address (codes "::ffff:") then drop 7 address else address

-- The address, once it is split at its dots.
unfoldable pub meta_from_parts : ℕ → ℕ → List Text → List ℕ
meta_from_parts id port (a ∷ b ∷ c ∷ d ∷ []) =
    if is_digits a && is_digits b && is_digits c && is_digits d
    then shr32 id 8 % 256
      ∷ id % 256
      ∷ 2
      ∷ 1
      ∷ 2
      ∷ shr32 port 8 % 256
      ∷ port % 256
      ∷ 1
      ∷ parse_digits 0 a % 256
      ∷ parse_digits 0 b % 256
      ∷ parse_digits 0 c % 256
      ∷ parse_digits 0 d % 256
      ∷ []
    else meta_keep id
meta_from_parts id port parts = meta_keep id

-- `metaUdpFrom`; an address that is missing is an empty text.
unfoldable pub meta_udp_from : ℕ → Text → ℕ → List ℕ
meta_udp_from id [] port = meta_from_parts id port (split_on b'.' (codes "0.0.0.0"))
meta_udp_from id (c ∷ cs) port = meta_from_parts id port (split_on b'.' (strip_mapped (c ∷ cs)))

-- The 'message' callback of a UDP substream, for the record of its stream.
unfoldable pub on_udp_message : Mux → ℕ → ℕ → Text → ℕ → List ℕ → List Effect
on_udp_message m id stream address port reply =
    if is_dead m
    then []
    else add_rx stream (length reply) ∷ send_mux (meta_udp_from id address port) true reply ∷ []
