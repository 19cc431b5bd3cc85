-- ===== src/Users/Uuid/RoundTrip.antt =====
-- A credential's UUID reads back as its bytes.
use better_nodejs_vless_ws.Base.{
  ℕ, zero, suc, ◌+◌, ◌*◌, ◌<◌, ◌≡◌, refl, ap, sym, ◌∙◌, Bool, true, false, ◌&&◌, some, List, [],
  ◌∷◌, ◌++◌, ◌==◌, length, take, drop, drop_nil, take-append-drop, arith, All, Bool-cases, inl, inr,
}
use better_nodejs_vless_ws.Base.Text.{Text, hexadecimal}
use better_nodejs_vless_ws.Base.Strings.{trim, trim_start, trim_end, is_white}
use better_nodejs_vless_ws.Users.Uuid.{
  padded, hex_of, dashed, format_uuid, strip_dashes, is_hex, all_hex, digit_value, parse_pairs,
  uuid_to_bytes,
}

and_left : (a b : Bool) → a && b ≡ true → a ≡ true
and_left true b h = refl
and_left false b h = h

and_right : (a b : Bool) → a && b ≡ true → b ≡ true
and_right true b h = h
and_right false b h = absurd cc

-- What a byte's two digits are.
abbrev is_good : ℕ → Text → Bool
is_good n (a ∷ b ∷ []) = is_hex a && is_hex b && digit_value a * 16 + digit_value b == n
is_good n digits = false

abbrev all_good : ℕ → Bool
all_good zero = true
all_good (suc n) = let rest = all_good n in is_good n (padded n) && rest

bytes_good : all_good 256 ≡ true
unfolding padded is_hex digit_value hexadecimal
bytes_good = refl

good_below : (m n : ℕ) → all_good m ≡ true → n < m → is_good n (padded n) ≡ true
good_below zero n h k = absurd (omega arith)
good_below (suc m) n h k = elim (Bool-cases (n == m)) [
  | inl same ↦ let e : n ≡ m = ground arith in rw e (and_left (is_good m (padded m)) (all_good m) h)
  | inr other ↦ good_below m n (and_right (is_good m (padded m)) (all_good m) h) (ground arith)
]

-- The two digits of a byte, and what they are.
record Digits (n : ℕ) (digits : Text) : Type 0 where
  high : ℕ
  low : ℕ
  written : digits ≡ high ∷ low ∷ []
  high_hex : is_hex high ≡ true
  low_hex : is_hex low ≡ true
  value : digit_value high * 16 + digit_value low ≡ n

is_good-Digits : (n : ℕ) (t : Text) → is_good n t ≡ true → Digits n t
is_good-Digits n [] h = absurd cc
is_good-Digits n (a ∷ []) h = absurd cc
is_good-Digits n (a ∷ b ∷ []) h = record {
  high = a;
  low = b;
  written = refl;
  high_hex = ground (arith, h);
  low_hex = ground (arith, h);
  value = ground (arith, h);
}
is_good-Digits n (a ∷ b ∷ c ∷ t) h = absurd cc

padded-Digits : (n : ℕ) → n < 256 → Digits n (padded n)
padded-Digits n h = is_good-Digits n (padded n) (good_below 256 n bytes_good h)

hex_plain : (c : ℕ) → is_hex c ≡ true → ((c == b'-') ≡ false) × (is_white c ≡ false)
unfolding is_hex
hex_plain c h = (ground arith, ground arith)

strip_dashes-hex : (t : Text) → all_hex t ≡ true → strip_dashes t ≡ t
unfolding strip_dashes all_hex
strip_dashes-hex [] h = refl
strip_dashes-hex (c ∷ cs) h =
    let (plain, _) = hex_plain c (and_left (is_hex c) (all_hex cs) h) in
    rw plain (ap (◌∷◌ c) (strip_dashes-hex cs (and_right (is_hex c) (all_hex cs) h)))

strip_dashes-append : (xs ys : Text) → strip_dashes (xs ++ ys) ≡ strip_dashes xs ++ strip_dashes ys
unfolding strip_dashes
strip_dashes-append [] ys = refl
strip_dashes-append (x ∷ xs) ys = elim (Bool-cases (x == b'-')) [
  | inl dash ↦ rw dash (strip_dashes-append xs ys)
  | inr other ↦ rw other (ap (◌∷◌ x) (strip_dashes-append xs ys))
]

strip_joined :
    (a b : Text) {rest : Text}
    → strip_dashes a ≡ a
    → strip_dashes b ≡ rest
    → strip_dashes (a ++ (b'-' ∷ b)) ≡ a ++ rest
strip_joined a b e f =
    strip_dashes-append a (b'-' ∷ b)
    ∙ ap (λ x. x ++ strip_dashes (b'-' ∷ b)) e
    ∙ ap (λ x. a ++ x) (dash b f)
  where
    dash : (t : Text) {rest : Text} → strip_dashes t ≡ rest → strip_dashes (b'-' ∷ t) ≡ rest
    dash t f = unfold strip_dashes in f

all_hex-take : (n : ℕ) (t : Text) → all_hex t ≡ true → all_hex (take n t) ≡ true
unfolding all_hex
all_hex-take zero t h = refl
all_hex-take (suc n) [] h = refl
all_hex-take (suc n) (c ∷ cs) h =
    rw (and_left (is_hex c) (all_hex cs) h)
      (all_hex-take n cs (and_right (is_hex c) (all_hex cs) h))

all_hex-drop : (n : ℕ) (t : Text) → all_hex t ≡ true → all_hex (drop n t) ≡ true
unfolding all_hex
all_hex-drop zero t h = h
all_hex-drop (suc n) [] h = refl
all_hex-drop (suc n) (c ∷ cs) h = all_hex-drop n cs (and_right (is_hex c) (all_hex cs) h)

drop_more : (m n : ℕ) (t : Text) → drop n (drop m t) ≡ drop (m + n) t
drop_more zero n t = ap (λ k. drop k t) (omega arith)
drop_more (suc m) n [] = drop_nil n ∙ sym (drop_nil (suc m + n))
drop_more (suc m) n (c ∷ cs) =
    let e : suc (m + n) ≡ suc m + n = omega arith in drop_more m n cs ∙ ap (λ k. drop k (c ∷ cs)) e

-- Four digits, and what follows them.
four_more : (m : ℕ) (t : Text) → take 4 (drop m t) ++ drop (m + 4) t ≡ drop m t
four_more m t =
    ap (λ rest. take 4 (drop m t) ++ rest) (sym (drop_more m 4 t)) ∙ take-append-drop 4 (drop m t)

-- The dashes come off again.
strip_dashes-dashed : (hex : Text) → all_hex hex ≡ true → strip_dashes (dashed hex) ≡ hex
unfolding dashed
strip_dashes-dashed hex h =
    let slice : (m : ℕ) → strip_dashes (take 4 (drop m hex)) ≡ take 4 (drop m hex) = λ m.
      strip_dashes-hex (take 4 (drop m hex)) (all_hex-take 4 (drop m hex) (all_hex-drop m hex h)) in
    let last : strip_dashes (drop 20 hex) ≡ drop 20 hex =
      strip_dashes-hex (drop 20 hex) (all_hex-drop 20 hex h) in
    let from_16 =
      strip_joined (take 4 (drop 16 hex)) (drop 20 hex) (slice 16) last ∙ four_more 16 hex in
    let from_12 = strip_joined (take 4 (drop 12 hex)) _ (slice 12) from_16 ∙ four_more 12 hex in
    let from_8 = strip_joined (take 4 (drop 8 hex)) _ (slice 8) from_12 ∙ four_more 8 hex in
    strip_joined (take 8 hex) _ (strip_dashes-hex (take 8 hex) (all_hex-take 8 hex h)) from_8
    ∙ take-append-drop 8 hex

trim_end-hex : (t : Text) → all_hex t ≡ true → trim_end t ≡ t
unfolding trim_end all_hex
trim_end-hex [] h = refl
trim_end-hex (c ∷ []) h = let (_, solid) = hex_plain c (and_left (is_hex c) true h) in rw solid refl
trim_end-hex (c ∷ k ∷ ks) h =
    rw (trim_end-hex (k ∷ ks) (and_right (is_hex c) (all_hex (k ∷ ks)) h)) refl

trim-hex : (t : Text) → all_hex t ≡ true → trim t ≡ t
unfolding trim trim_start all_hex
trim-hex [] h = trim_end-hex [] h
trim-hex (c ∷ cs) h =
    let (_, solid) = hex_plain c (and_left (is_hex c) (all_hex cs) h) in
    rw solid (trim_end-hex (c ∷ cs) h)

-- The digits of bytes.
record Written (bytes : List ℕ) : Type 0 where
  digits_hex : all_hex (hex_of bytes) ≡ true
  two_each : length (hex_of bytes) ≡ 2 * length bytes
  parsed : parse_pairs (hex_of bytes) ≡ bytes

hex_of-Written : (bytes : List ℕ) → All (λ b. b < 256) bytes → Written bytes
unfolding hex_of all_hex parse_pairs
hex_of-Written [] h = record { digits_hex = refl; two_each = refl; parsed = refl }
hex_of-Written (b ∷ bytes) (h, hs) =
    let d = padded-Digits b h in
    let w = hex_of-Written bytes hs in
    record {
      digits_hex = rw (d.written, d.high_hex, d.low_hex) w.digits_hex;
      two_each = rw d.written (omega (arith, w.two_each));
      parsed = rw (d.written, d.value, w.parsed) refl;
    }

-- The UUID of a credential reads back: sixteen bytes, written as text with dashes by `formatUuid`,
-- are the bytes that `uuidToBytes` finds in that text.
pub uuid_to_bytes-format_uuid :
    (bytes : List ℕ)
    → length bytes ≡ 16
    → All (λ b. b < 256) bytes
    → uuid_to_bytes (format_uuid bytes) ≡ some bytes
unfolding uuid_to_bytes format_uuid
uuid_to_bytes-format_uuid bytes size small =
    let w = hex_of-Written bytes small in
    let bare : strip_dashes (dashed (hex_of bytes)) ≡ hex_of bytes =
      strip_dashes-dashed (hex_of bytes) w.digits_hex in
    let whole : (length (hex_of bytes) == 32) ≡ true = ground (arith, w.two_each, size) in
    rw (bare, trim-hex (hex_of bytes) w.digits_hex, whole, w.digits_hex, w.parsed) refl
