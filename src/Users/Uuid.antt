-- ===== src/Users/Uuid.antt =====
-- UUIDs as text and as bytes: `formatUuid` of src/node/users.js and `uuidToBytes` of src/vless.js.
pub mod RoundTrip
use better_nodejs_vless_ws.Base.{
  ℕ, ◌+◌, ◌-◌, ◌*◌, Bool, true, false, ◌&&◌, ◌||◌, not, Option, none, some, List, [], ◌∷◌, ◌++◌,
  if◌then◌else◌, ltb, leb, ◌==◌, length, take, drop,
}
use better_nodejs_vless_ws.Base.Text.{Text, hexadecimal}
use better_nodejs_vless_ws.Base.Strings.{trim}

-- `toString(16).padStart(2, '0')` of a byte.
unfoldable pub padded : ℕ → Text
padded n = let digits = hexadecimal n in if ltb (length digits) 2 then b'0' ∷ digits else digits

-- The loop of `formatUuid`.
unfoldable pub hex_of : List ℕ → Text
hex_of [] = []
hex_of (b ∷ bytes) = padded b ++ hex_of bytes

-- The five slices with dashes between them.
unfoldable pub dashed : Text → Text
dashed hex =
    let last = b'-' ∷ drop 20 hex in
    let fourth = b'-' ∷ (take 4 (drop 16 hex) ++ last) in
    let third = b'-' ∷ (take 4 (drop 12 hex) ++ fourth) in
    take 8 hex ++ (b'-' ∷ (take 4 (drop 8 hex) ++ third))

-- `formatUuid`.
unfoldable pub format_uuid : List ℕ → Text
format_uuid bytes = dashed (hex_of bytes)

-- `replace(/-/g, '')`.
unfoldable pub strip_dashes : Text → Text
strip_dashes [] = []
strip_dashes (c ∷ cs) = let rest = strip_dashes cs in if c == b'-' then rest else c ∷ rest

-- `[0-9a-fA-F]`.
unfoldable pub is_hex : ℕ → Bool
is_hex c = (leb b'0' c && leb c b'9') || (leb b'a' c && leb c b'f') || (leb b'A' c && leb c b'F')

unfoldable pub all_hex : Text → Bool
all_hex [] = true
all_hex (c ∷ cs) = is_hex c && all_hex cs

-- The value of a digit.
unfoldable pub digit_value : ℕ → ℕ
digit_value c = if leb c b'9' then c - b'0' else if leb c b'F' then c - 55 else c - 87

-- The loop of `uuidToBytes`, on the pairs of digits.
unfoldable pub parse_pairs : Text → List ℕ
parse_pairs [] = []
parse_pairs (a ∷ []) = []
parse_pairs (a ∷ b ∷ rest) = (digit_value a * 16 + digit_value b) ∷ parse_pairs rest

-- `uuidToBytes`; `none` is the exception.
unfoldable pub uuid_to_bytes : Text → Option (List ℕ)
uuid_to_bytes uuid =
    let hex = trim (strip_dashes uuid) in
    if length hex == 32 && all_hex hex then some (parse_pairs hex) else none
