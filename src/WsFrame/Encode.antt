-- ===== src/WsFrame/Encode.antt =====
-- src/node/wsframe.js: what the writers write.
use better_nodejs_vless_ws.Base.{
  ℕ, ◌+◌, ◌/◌, ◌%◌, ◌^◌, ◌≤◌, ◌<◌, ◌≡◌, refl, sym, List, [], ◌∷◌, ◌++◌, arith, tests, ap,
  Bool-cases, inl, inr, if◌then◌else◌, leb, length,
}
use better_nodejs_vless_ws.Base.Bytes.{set_all_after}
use better_nodejs_vless_ws.WsFrame.{header_length_for, write_header, encode_frame}

-- The length field of RFC 6455 behind the first byte; `mask_bit` is 128 on a masked frame.
unfoldable pub length_field : ℕ → ℕ → List ℕ
length_field mask_bit n =
    if leb n 125
    then (mask_bit + n) ∷ []
    else if leb n 65535
    then (mask_bit + 126) ∷ n / 256 ∷ n % 256 ∷ []
    else (mask_bit + 127)
      ∷ 0
      ∷ 0
      ∷ 0
      ∷ 0
      ∷ n / 2 ^ 24
      ∷ n / 2 ^ 16 % 256
      ∷ n / 2 ^ 8 % 256
      ∷ n % 256
      ∷ []

-- The header of an unmasked, unfragmented frame.
unfoldable pub frame_header : ℕ → ℕ → List ℕ
unfolding length_field
frame_header opcode n = (128 + opcode % 16) ∷ length_field 0 n

pub shape2 : (out : List ℕ) → 2 ≤ length out → (a b : ℕ) × (rest : List ℕ) × (out ≡ a ∷ b ∷ rest)
shape2 (a ∷ b ∷ rest) h = (a, b, rest, refl)
shape2 out h = absurd (omega arith)

shape4 :
    (out : List ℕ) → 4 ≤ length out → (a b c d : ℕ) × (rest : List ℕ) × (out ≡ a ∷ b ∷ c ∷ d ∷ rest)
shape4 (a ∷ b ∷ c ∷ d ∷ rest) h = (a, b, c, d, rest, refl)
shape4 out h = absurd (omega arith)

shape10 :
    (out : List ℕ)
    → 10 ≤ length out
    → (a b c d e f g i j k : ℕ) × (rest : List ℕ) × (out
        ≡ a ∷ b ∷ c ∷ d ∷ e ∷ f ∷ g ∷ i ∷ j ∷ k ∷ rest)
shape10 (a ∷ b ∷ c ∷ d ∷ e ∷ f ∷ g ∷ i ∷ j ∷ k ∷ rest) h =
    (a, b, c, d, e, f, g, i, j, k, rest, refl)
shape10 out h = absurd (omega arith)

-- The header written, and the part of the array behind it.
abbrev pub Written : List ℕ → ℕ → ℕ → Type 0
Written out opcode plen =
    (rest : List ℕ) × (length rest ≡ plen)
    × (write_header out opcode plen ≡ (frame_header opcode plen ++ rest, header_length_for plen))

write_short :
    (a b : ℕ) (rest : List ℕ) (opcode plen : ℕ)
    → length rest ≡ plen
    → plen ≤ 125
    → Written (a ∷ b ∷ rest) opcode plen
unfolding write_header header_length_for frame_header length_field
write_short a b rest opcode plen h k = (rest, h, ground arith)

write_medium :
    (a b c d : ℕ) (rest : List ℕ) (opcode plen : ℕ)
    → length rest ≡ plen
    → 125 < plen
    → plen ≤ 65535
    → Written (a ∷ b ∷ c ∷ d ∷ rest) opcode plen
unfolding write_header header_length_for frame_header length_field
write_medium a b c d rest opcode plen h l k = (rest, h, ground arith)

write_long :
    (a b c d e f g i j k : ℕ) (rest : List ℕ) (opcode plen : ℕ)
    → length rest ≡ plen
    → 65535 < plen
    → plen < 2 ^ 32
    → Written (a ∷ b ∷ c ∷ d ∷ e ∷ f ∷ g ∷ i ∷ j ∷ k ∷ rest) opcode plen
unfolding write_header header_length_for frame_header length_field
write_long a b c d e f g i j k rest opcode plen h l u = (rest, h, ground arith)

header_length_bounds :
    (plen : ℕ)
    → (plen ≤ 125 → header_length_for plen ≡ 2)
      × (125 < plen → plen ≤ 65535 → header_length_for plen ≡ 4)
      × (65535 < plen → header_length_for plen ≡ 10)
unfolding header_length_for
header_length_bounds plen = (λ h. ground arith, λ h k. ground arith, λ h. ground arith)

pub write_header_lem :
    (out : List ℕ) (opcode plen : ℕ)
    → length out ≡ header_length_for plen + plen
    → plen < 2 ^ 32
    → Written out opcode plen
write_header_lem out opcode plen h k = elim (Bool-cases (leb plen 125)) [
  | inl small ↦
      let short : plen ≤ 125 = omega tests in
      let (a, b, rest, e) = shape2 out (omega (arith, (header_length_bounds plen).0 short)) in
      rw e (
        write_short a b rest opcode plen
          (omega (arith, ap length e, (header_length_bounds plen).0 short)) short)
  | inr big ↦ elim (Bool-cases (leb plen 65535)) [
    | inl middle ↦
        let over : 125 < plen = ground arith in
        let under : plen ≤ 65535 = omega tests in
        let size : header_length_for plen ≡ 4 = (header_length_bounds plen).1 over under in
        let (a, b, c, d, rest, e) = shape4 out (omega (arith, size)) in
        rw e (write_medium a b c d rest opcode plen (omega (arith, ap length e, size)) over under)
    | inr large ↦
        let over : 65535 < plen = ground arith in
        let size : header_length_for plen ≡ 10 = (header_length_bounds plen).2 over in
        let (a, b, c, d, e, f, g, i, j, l, rest, p) = shape10 out (omega (arith, size)) in
        rw p (
          write_long a b c d e f g i j l rest opcode plen (omega (arith, ap length p, size)) over k)
  ]
]

pub length-frame_header : (opcode n : ℕ) → length (frame_header opcode n) ≡ header_length_for n
unfolding frame_header length_field header_length_for
length-frame_header opcode n = ground arith

pub nil_of_length : (xs : List ℕ) → length xs ≡ 0 → xs ≡ []
nil_of_length [] h = refl
nil_of_length (x ∷ xs) h = absurd (omega arith)

-- What `Buffer.allocUnsafe` promises: an array of the size asked for.
module _ (alloc : ℕ → List ℕ) (alloc_size : (n : ℕ) → length (alloc n) ≡ n) where
  -- Every byte of the array is written: the frame is the header of RFC 6455 and the payload, for
  -- any payload below 4 GiB, whatever the array held before. `allocUnsafe` returns arrays of the size
  -- asked for.
  pub encode_frame_lem :
      (opcode : ℕ) (payload : List ℕ)
      → length payload < 2 ^ 32
      → encode_frame alloc opcode payload ≡ frame_header opcode (length payload) ++ payload
  unfolding encode_frame
  encode_frame_lem opcode payload h =
      let n : ℕ = length payload in
      let (rest, size, e) =
        write_header_lem (alloc (header_length_for n + n)) opcode n (alloc_size _) h in
      rw e (
        ground (
          arith,
          set_all_after (frame_header opcode n) rest payload (header_length_for n)
              (sym (length-frame_header opcode n)) size,
          nil_of_length rest,
          nil_of_length payload,
        ))
