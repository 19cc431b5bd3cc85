-- ===== src/WsFrame.antt =====
-- src/node/wsframe.js: WebSocket frames. `alloc` is `Buffer.allocUnsafe`: an array of that many
-- bytes with arbitrary contents.
pub mod Opcode
pub mod Encode
pub mod EncodeMux
pub mod Decode
use better_nodejs_vless_ws.Base.{
  ℕ, zero, suc, ◌+◌, ◌*◌, ◌/◌, ◌%◌, ◌^◌, ◌≡◌, Bool, true, false, ◌&&◌, Option, none, some, List, [],
  ◌∷◌, bit_xor, if◌then◌else◌, ltb, leb, ◌==◌, length, sub,
}
use better_nodejs_vless_ws.Base.Bytes.{byte, word, shr32, store, set_all}

pub record Frame : Type 0 where
  pub fin : Bool
  pub opcode : ℕ
  pub payload : List ℕ
  pub consumed : ℕ

-- The unmasking loop from index `i` on, with `n` rounds left.
unfoldable pub unmask : List ℕ → ℕ → List ℕ → ℕ → ℕ → List ℕ
unmask buffer header_len mask i zero = []
unmask buffer header_len mask i (suc n) =
    bit_xor (byte buffer (header_len + i)) (byte mask (i % 4))
    ∷ unmask buffer header_len mask (i + 1) n

-- From the masking key on, once the length is read.
unfoldable pub decode_payload : List ℕ → Bool → ℕ → Bool → ℕ → ℕ → Option Frame
decode_payload buffer fin opcode masked payload_len header_len =
    let mask = sub buffer header_len (header_len + 4) in
    let body = if masked then header_len + 4 else header_len in
    let payload =
      if masked && ltb 0 payload_len
      then unmask buffer body mask 0 payload_len
      else sub buffer body (body + payload_len) in
    if masked && ltb (length buffer) (header_len + 4)
    then none
    else if ltb (length buffer) (body + payload_len)
    then none
    else some
        (record { fin = fin; opcode = opcode; payload = payload; consumed = body + payload_len })

unfoldable pub decode_frame : List ℕ → Option Frame
decode_frame buffer =
    let fin = byte buffer 0 / 128 == 1 in
    let opcode = byte buffer 0 % 16 in
    let masked = byte buffer 1 / 128 == 1 in
    let short_len = byte buffer 1 % 128 in
    if ltb (length buffer) 2
    then none
    else if short_len == 126
    then if ltb (length buffer) 4
      then none
      else decode_payload buffer fin opcode masked (word buffer 2) 4
    else if short_len == 127
    then if ltb (length buffer) 10
      then none
      else decode_payload buffer fin opcode masked
          (byte buffer 6 * 16777216
            + byte buffer 7 * 2 ^ 16
            + byte buffer 8 * 2 ^ 8
            + byte buffer 9)
          10
    else decode_payload buffer fin opcode masked short_len 2

unfoldable pub header_length_for : ℕ → ℕ
header_length_for plen = if ltb 65535 plen then 10 else if ltb 125 plen then 4 else 2

-- `writeHeader`: the array after the writes, and the offset behind the header.
unfoldable pub write_header : List ℕ → ℕ → ℕ → List ℕ × ℕ
write_header out opcode plen =
    let out0 = store out 0 (128 + opcode % 16) in
    let short = store out0 1 plen in
    let medium = store (store (store out0 1 126) 2 (shr32 plen 8)) 3 (plen % 256) in
    let zeros = store (store (store (store (store out0 1 127) 2 0) 3 0) 4 0) 5 0 in
    let long =
      store (store (store (store zeros 6 (shr32 plen 24)) 7 (shr32 plen 16)) 8 (shr32 plen 8)) 9
        plen in
    if leb plen 125 then (short, 2) else if leb plen 65535 then (medium, 4) else (long, 10)

-- A length field of two bytes at `offset`, then the part it counts.
unfoldable pub write_part : List ℕ → ℕ → List ℕ → List ℕ
write_part out offset part =
    let n = length part in
    let sized = store (store out offset (shr32 n 8)) (offset + 1) (n % 256) in
    if ltb 0 n then set_all sized part (offset + 2) else sized

module _ (alloc : ℕ → List ℕ) where
  unfoldable pub encode_frame : ℕ → List ℕ → List ℕ
  encode_frame opcode payload =
      let plen = length payload in
      let (out, offset) = write_header (alloc (header_length_for plen + plen)) opcode plen in
      if ltb 0 plen then set_all out payload offset else out

  -- `none` is the `RangeError`.
  unfoldable pub encode_mux_frame : ℕ → List ℕ → Bool → List ℕ → Option (List ℕ)
  encode_mux_frame opcode meta has_data payload =
      let meta_len = length meta in
      let data_len = if has_data then length payload else 0 in
      let plen = 2 + meta_len + (if has_data then 2 + data_len else 0) in
      let (out, offset) = write_header (alloc (header_length_for plen + plen)) opcode plen in
      let with_meta = write_part out offset meta in
      let with_data = write_part with_meta (offset + 2 + meta_len) payload in
      if ltb 0xffff meta_len
      then none
      else if ltb 0xffff data_len
      then none
      else some (if has_data then with_data else with_meta)
