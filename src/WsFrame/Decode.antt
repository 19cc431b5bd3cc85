-- ===== src/WsFrame/Decode.antt =====
-- src/node/wsframe.js, `decodeFrame`: it reads back what RFC 6455 has on the wire.
use better_nodejs_vless_ws.Base.{
  ℕ, suc, ◌+◌, ◌/◌, ◌%◌, ◌^◌, ◌<◌, ◌≡◌, refl, sym, Bool, true, false, some, List, [], ◌∷◌, ◌++◌,
  arith, ap, ◌==◌, length, sub, length-append, append_assoc, bit_xor,
}
use better_nodejs_vless_ws.Base.Bits.{bit_xor_cancel}
use better_nodejs_vless_ws.Base.Bytes.{byte, byte_after, sub_after}
use better_nodejs_vless_ws.WsFrame.{unmask, decode_payload, decode_frame, encode_frame}
use better_nodejs_vless_ws.WsFrame.Encode.{length_field, frame_header, encode_frame_lem}

-- The payload masked with the key, from index `i` on.
pub mask_from : List ℕ → ℕ → List ℕ → List ℕ
mask_from key i [] = []
mask_from key i (b ∷ bs) = bit_xor b (byte key (i % 4)) ∷ mask_from key (i + 1) bs

-- A frame as a client sends it: first byte, masked length, key and masked payload.
pub client_frame : ℕ → List ℕ → List ℕ → List ℕ
client_frame first key payload =
    (first ∷ length_field 128 (length payload)) ++ (key ++ mask_from key 0 payload)

-- A frame is not empty.
pub client_frame_some :
    (first : ℕ) (key payload rest : List ℕ)
    → (length (client_frame first key payload ++ rest) == 0) ≡ false
unfolding client_frame
client_frame_some first key payload rest = ground arith

length-mask_from : (key : List ℕ) (i : ℕ) (bs : List ℕ) → length (mask_from key i bs) ≡ length bs
unfolding mask_from
length-mask_from key i [] = refl
length-mask_from key i (b ∷ bs) = ap suc (length-mask_from key (i + 1) bs)

unmask-mask_from :
    (front key bs back : List ℕ) (h i : ℕ)
    → h + i ≡ length front
    → unmask (front ++ (mask_from key i bs ++ back)) h key i (length bs) ≡ bs
unfolding unmask mask_from
unmask-mask_from front key [] back h i e = refl
unmask-mask_from front key (b ∷ bs) back h i e =
    let m : ℕ = bit_xor b (byte key (i % 4)) in
    let lead : List ℕ = m ∷ [] in
    let tail : List ℕ = mask_from key (i + 1) bs ++ back in
    let ih : unmask (front ++ (m ∷ tail)) h key (i + 1) (length bs) ≡ bs =
      rw (append_assoc front lead tail) at (
        unmask-mask_from (front ++ lead) key bs back h (i + 1)
          (omega (arith, length-append front lead))) in
    rw (byte_after front (m ∷ tail) (h + i) 0 (omega arith), bit_xor_cancel) (ap (◌∷◌ b) ih)

mask_nil : (key payload : List ℕ) → length payload ≡ 0 → mask_from key 0 payload ≡ payload
unfolding mask_from
mask_nil key [] h = refl
mask_nil key (b ∷ bs) h = absurd (omega arith)

module _ (front rest : List ℕ) (fin : Bool) (opcode : ℕ) where
  decode_payload_plain :
      (payload : List ℕ)
      → decode_payload (front ++ (payload ++ rest)) fin opcode false (length payload) (length front)
        ≡ some (record {
          fin = fin;
          opcode = opcode;
          payload = payload;
          consumed = length front + length payload;
        })
  unfolding decode_payload
  decode_payload_plain payload = ground (
    arith,
    length-append front (payload ++ rest),
    length-append payload rest,
    sub_after front payload rest (length front) (length front + length payload) refl refl,
  )

  decode_payload_masked :
      (key payload : List ℕ)
      → length key ≡ 4
      → decode_payload
          (front ++ (key ++ (mask_from key 0 payload ++ rest)))
          fin
          opcode
          true
          (length payload)
          (length front)
        ≡ some (record {
          fin = fin;
          opcode = opcode;
          payload = payload;
          consumed = length front + 4 + length payload;
        })
  unfolding decode_payload
  decode_payload_masked key payload h =
      let n : ℕ = length payload in
      let masked : List ℕ = mask_from key 0 payload in
      let body : ℕ = length front + 4 in
      let all : List ℕ = front ++ (key ++ (masked ++ rest)) in
      let split : all ≡ (front ++ key) ++ (masked ++ rest) =
        sym (append_assoc front key (masked ++ rest)) in
      let body_end : body ≡ length (front ++ key) = omega (arith, length-append front key) in
      let clear : unmask all body key 0 n ≡ payload =
        rw split
          (unmask-mask_from (front ++ key) key payload rest body 0 (omega (arith, body_end))) in
      let raw : sub all body (body + n) ≡ masked = rw split (
        sub_after (front ++ key) masked rest body (body + n) body_end
          (omega (arith, length-mask_from key 0 payload))) in
      ground (
        arith,
        length-append front (key ++ (masked ++ rest)),
        length-append key (masked ++ rest),
        length-append masked rest,
        length-mask_from key 0 payload,
        sub_after front key (masked ++ rest) (length front) body refl (omega (arith, h)),
        clear,
        raw,
        mask_nil key payload,
      )

-- The mask bit of the length field.
abbrev mask_bit : Bool → ℕ
mask_bit true = 128
mask_bit false = 0

-- Reading the header leads to the payload, with the length as it was written.
decode_frame-header :
    (first n : ℕ) (masked : Bool) (tail : List ℕ)
    → n < 2 ^ 32
    → let header = first ∷ length_field (mask_bit masked) n in
      decode_frame (header ++ tail)
      ≡ decode_payload (header ++ tail) (first / 128 == 1) (first % 16) masked n (length header)
unfolding decode_frame length_field
decode_frame-header first n true tail h = ground arith
decode_frame-header first n false tail h = ground arith

-- What the server sends reads back: a frame written by `encodeFrame`, with any bytes behind it,
-- decodes to its opcode (four bits) and payload, as a final frame, and uses up exactly the bytes
-- written. The payload is below 4 GiB, and `allocUnsafe` returns arrays of the size asked for.
pub decode_frame-encode_frame :
    (alloc : ℕ → List ℕ) (alloc_size : (n : ℕ) → length (alloc n) ≡ n) (opcode : ℕ)
    (payload rest : List ℕ)
    → length payload < 2 ^ 32
    → decode_frame (encode_frame alloc opcode payload ++ rest)
      ≡ some (record {
        fin = true;
        opcode = opcode % 16;
        payload = payload;
        consumed = length (encode_frame alloc opcode payload);
      })
unfolding frame_header
decode_frame-encode_frame alloc alloc_size opcode payload rest h =
    let n : ℕ = length payload in
    let header : List ℕ = frame_header opcode n in
    let first : ℕ = 128 + opcode % 16 in
    let fin_bit : (first / 128 == 1) ≡ true = ground arith in
    let low : first % 16 ≡ opcode % 16 = omega arith in
    rw (
      encode_frame_lem alloc alloc_size opcode payload h,
      append_assoc header payload rest,
      decode_frame-header first n false (payload ++ rest) h,
      decode_payload_plain header rest (first / 128 == 1) (first % 16) payload,
      fin_bit,
      low,
      length-append header payload,
    )

-- What a client sends reads back: any masked frame, with any bytes behind it, decodes to the fin
-- bit and opcode of its first byte and to the unmasked payload, and uses up exactly its bytes. The
-- key has its four bytes, and the payload is below 4 GiB.
pub decode_frame-client_frame :
    (first : ℕ) (key payload rest : List ℕ)
    → length key ≡ 4
    → length payload < 2 ^ 32
    → decode_frame (client_frame first key payload ++ rest)
      ≡ some (record {
        fin = first / 128 == 1;
        opcode = first % 16;
        payload = payload;
        consumed = length (client_frame first key payload);
      })
unfolding client_frame
decode_frame-client_frame first key payload rest hk h =
    let n : ℕ = length payload in
    let header : List ℕ = first ∷ length_field 128 n in
    let masked : List ℕ = mask_from key 0 payload in
    let size : length (header ++ (key ++ masked)) ≡ length header + 4 + n = omega (
      arith,
      hk,
      length-append header (key ++ masked),
      length-append key masked,
      length-mask_from key 0 payload,
    ) in
    rw (
      append_assoc header (key ++ masked) rest,
      append_assoc key masked rest,
      decode_frame-header first n true (key ++ (masked ++ rest)) h,
      decode_payload_masked header rest (first / 128 == 1) (first % 16) key payload hk,
      size,
    )
