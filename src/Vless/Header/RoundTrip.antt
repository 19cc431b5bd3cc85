-- ===== src/Vless/Header/RoundTrip.antt =====
-- `parseVlessHeader` of src/vless.js against the layout of a request, as a client writes it.
use better_nodejs_vless_ws.Base.{
  ℕ, zero, suc, ◌+◌, ◌/◌, ◌%◌, ◌≤◌, ◌≡◌, refl, ap, ◌⊎◌, some, List, [], ◌∷◌, ◌++◌, arith,
  if◌then◌else◌, length, sub, append_assoc, length-append,
}
use better_nodejs_vless_ws.Base.Text.{Text, codes, join_text}
use better_nodejs_vless_ws.Base.Bytes.{byte, byte_after, sub_after}
use better_nodejs_vless_ws.Vless.Address.{
  Unicode, decode, ipv4_text, ipv6_text, hex_groups, is_blocked_domain,
}
use better_nodejs_vless_ws.Vless.Header.{
  User, Auth, blocked_domain, fail, ok, lookup_user, finish, parse_address, parse_command,
  parse_vless_header,
}
use better_nodejs_vless_ws.Vless.Header.Stable.{hex_groups-append}

-- Where a client wants to go.
pub data Endpoint : Type 0 where
  ipv4 : ℕ → ℕ → ℕ → ℕ → Endpoint
  domain : List ℕ → Endpoint
  ipv6 : List ℕ → Endpoint

-- Type, then address; a name has its length in front.
abbrev pub encode_endpoint : Endpoint → List ℕ
encode_endpoint (ipv4 a b c d) = 1 ∷ a ∷ b ∷ c ∷ d ∷ []
encode_endpoint (domain name) = 2 ∷ length name ∷ name
encode_endpoint (ipv6 bytes) = 3 ∷ bytes

abbrev pub endpoint_text : Unicode → Endpoint → Text
endpoint_text unicode (ipv4 a b c d) = ipv4_text (a ∷ b ∷ c ∷ d ∷ []) 0
endpoint_text unicode (domain name) = decode unicode name
endpoint_text unicode (ipv6 bytes) = ipv6_text bytes 0

abbrev pub IsWritable : Endpoint → Type 0
IsWritable (ipv4 a b c d) = Unit {0}
IsWritable (domain name) = Unit {0}
IsWritable (ipv6 bytes) = length bytes ≡ 16

-- Version 0, the credential, the options with their length in front, then the command.
abbrev pub request_head : List ℕ → List ℕ → List ℕ
request_head uuid options = 0 ∷ (uuid ++ (length options ∷ options))

hex_groups_after :
    (front back : List ℕ) (n k i : ℕ)
    → k ≡ length front + i
    → hex_groups (front ++ back) k n ≡ hex_groups back i n
unfolding hex_groups
hex_groups_after front back zero k i h = refl
hex_groups_after front back (suc n) k i h = rw (
  byte_after front back k i h,
  byte_after front back (k + 1) (i + 1) (omega arith),
  hex_groups_after front back n (k + 2) (i + 2) (omega arith),
)

ipv4_text_after :
    (front back : List ℕ) (a b c d k : ℕ)
    → k ≡ length front + 1
    → ipv4_text (front ++ (1 ∷ a ∷ b ∷ c ∷ d ∷ back)) k ≡ ipv4_text (a ∷ b ∷ c ∷ d ∷ []) 0
unfolding ipv4_text
ipv4_text_after front back a b c d k h =
    let wire : List ℕ = 1 ∷ a ∷ b ∷ c ∷ d ∷ back in
    rw (
      byte_after front wire k 1 h,
      byte_after front wire (k + 1) 2 (omega arith),
      byte_after front wire (k + 2) 3 (omega arith),
      byte_after front wire (k + 3) 4 (omega arith),
    )

name_after :
    (front name back : List ℕ) (k : ℕ)
    → k ≡ length front + 2
    → sub (front ++ (2 ∷ length name ∷ (name ++ back))) k (k + length name) ≡ name
name_after front name back k h =
    let lead : List ℕ = 2 ∷ length name ∷ [] in
    rw (← append_assoc front lead (name ++ back)) (
      sub_after (front ++ lead) name back k (k + length name)
        (omega (arith, length-append front lead)) refl)

ipv6_text_after :
    (front bytes back : List ℕ) (k : ℕ)
    → k ≡ length front + 1
    → length bytes ≡ 16
    → ipv6_text (front ++ (3 ∷ (bytes ++ back))) k ≡ ipv6_text bytes 0
unfolding ipv6_text
ipv6_text_after front bytes back k h w =
    let lead : List ℕ = 3 ∷ [] in
    rw
      (
        ← append_assoc front lead (bytes ++ back),
        hex_groups_after (front ++ lead) (bytes ++ back) 8 k 0
            (omega (arith, length-append front lead)),
      )
      (ap (join_text (codes ":")) (hex_groups-append bytes back 8 0 (omega arith)))

-- The parse of the address at the end of `front`.
parse_address-encode :
    (unicode : Unicode) (front back : List ℕ) (e : Endpoint) (cmd port at : ℕ) (user : User)
    → at ≡ length front
    → IsWritable e
    → parse_address unicode (front ++ (encode_endpoint e ++ back)) cmd port at user
      ≡ finish unicode cmd (endpoint_text unicode e) port (at + length (encode_endpoint e)) user
unfolding parse_address
parse_address-encode unicode front back (ipv4 a b c d) cmd port at user h w =
    let wire : List ℕ = 1 ∷ a ∷ b ∷ c ∷ d ∷ back in
    ground (
      arith,
      length-append front wire,
      byte_after front wire at 0,
      ipv4_text_after front back a b c d (at + 1),
    )
parse_address-encode unicode front back (domain name) cmd port at user h w =
    let wire : List ℕ = 2 ∷ length name ∷ (name ++ back) in
    ground (
      arith,
      length-append front wire,
      length-append name back,
      byte_after front wire at 0,
      byte_after front wire (at + 1) 1,
      name_after front name back (at + 1 + 1),
    )
parse_address-encode unicode front back (ipv6 bytes) cmd port at user h w =
    let wire : List ℕ = 3 ∷ (bytes ++ back) in
    ground (
      arith,
      length-append front wire,
      length-append bytes back,
      byte_after front wire at 0,
      ipv6_text_after front bytes back (at + 1),
    )

encode_endpoint_pos : (e : Endpoint) → 1 ≤ length (encode_endpoint e)
encode_endpoint_pos (ipv4 a b c d) = omega arith
encode_endpoint_pos (domain name) = omega arith
encode_endpoint_pos (ipv6 bytes) = omega arith

-- The whole header of a request for TCP (1) or UDP (2).
abbrev pub encode_request : List ℕ → List ℕ → ℕ → ℕ → Endpoint → List ℕ
encode_request uuid options cmd port e =
    request_head uuid options ++ (cmd ∷ port / 256 ∷ port % 256 ∷ encode_endpoint e)

parse_command-encode :
    (unicode : Unicode) (front back : List ℕ) (cmd port at : ℕ) (e : Endpoint) (user : User)
    → at ≡ length front
    → IsWritable e
    → (cmd ≡ 1) ⊎ (cmd ≡ 2)
    → parse_command unicode
        (front ++ (cmd ∷ port / 256 ∷ port % 256 ∷ (encode_endpoint e ++ back)))
        at
        user
      ≡ finish unicode cmd (endpoint_text unicode e) port (at + 3 + length (encode_endpoint e)) user
unfolding parse_command
parse_command-encode unicode front back cmd port at e user h w c =
    let tail : List ℕ = encode_endpoint e ++ back in
    let lead : List ℕ = cmd ∷ port / 256 ∷ port % 256 ∷ [] in
    let wire : List ℕ = cmd ∷ port / 256 ∷ port % 256 ∷ tail in
    let address : parse_address unicode (front ++ wire) cmd port (at + 1 + 2) user
        ≡ finish unicode cmd (endpoint_text unicode e) port
            (at + 1 + 2 + length (encode_endpoint e)) user =
      rw (← append_assoc front lead tail) (
        parse_address-encode unicode (front ++ lead) back e cmd port (at + 1 + 2) user
          (omega (arith, length-append front lead)) w) in
    ground (
      arith,
      length-append front wire,
      length-append (encode_endpoint e) back,
      encode_endpoint_pos e,
      byte_after front wire at 0,
      byte_after front wire (at + 1) 1,
      byte_after front wire (at + 1 + 1) 2,
      address,
    )

option_length :
    (uuid options body payload : List ℕ)
    → length uuid ≡ 16
    → byte ((request_head uuid options ++ body) ++ payload) 17 ≡ length options
option_length uuid options body payload hu =
    let lead : List ℕ = 0 ∷ uuid in
    rw
      (
        append_assoc (request_head uuid options) body payload,
        append_assoc lead (length options ∷ options) (body ++ payload),
      )
      (byte_after lead (length options ∷ (options ++ (body ++ payload))) 17 0 (omega arith))

-- A request for TCP (1) or UDP (2) parses back, whatever payload follows it: command, port and
-- host as written, and the payload begins where the header ends. Only a blocked host is refused,
-- with that host as the reason. The credential is one that the test accepts, of 16 bytes, and an
-- IPv6 address has its 16 bytes.
pub parse_vless_header-encode :
    (unicode : Unicode) (auth : Auth) (uuid options payload : List ℕ) (cmd port : ℕ) (e : Endpoint)
    (user : User)
    → length uuid ≡ 16
    → IsWritable e
    → (cmd ≡ 1) ⊎ (cmd ≡ 2)
    → lookup_user auth (encode_request uuid options cmd port e ++ payload) ≡ some user
    → parse_vless_header unicode auth (encode_request uuid options cmd port e ++ payload) ≡ (
        if is_blocked_domain unicode (endpoint_text unicode e)
        then fail (blocked_domain (endpoint_text unicode e))
        else ok (record {
          cmd = cmd;
          host = endpoint_text unicode e;
          port = port;
          header_end = length (encode_request uuid options cmd port e);
          user = user;
        }))
unfolding parse_vless_header finish
parse_vless_header-encode unicode auth uuid options payload cmd port e user hu w c found =
    let head : List ℕ = request_head uuid options in
    let body : List ℕ = cmd ∷ port / 256 ∷ port % 256 ∷ encode_endpoint e in
    let all : List ℕ = (head ++ body) ++ payload in
    let size : length (head ++ body) ≡ 18 + length options + 3 + length (encode_endpoint e) =
      omega (arith, length-append head body, length-append uuid (length options ∷ options)) in
    let command : parse_command unicode all (18 + length options) user
        ≡ finish unicode cmd (endpoint_text unicode e) port
            (18 + length options + 3 + length (encode_endpoint e)) user =
      rw (append_assoc head body payload) (
        parse_command-encode unicode head payload cmd port (18 + length options) e user
          (omega (arith, length-append uuid (length options ∷ options))) w c) in
    ground (
      arith,
      size,
      length-append (head ++ body) payload,
      option_length uuid options body payload hu,
      command,
    )
