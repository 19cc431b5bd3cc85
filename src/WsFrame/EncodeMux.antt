-- ===== src/WsFrame/EncodeMux.antt =====
-- src/node/wsframe.js, `encodeMuxFrame`: a Mux.Cool frame inside a WebSocket frame.
use better_nodejs_vless_ws.Base.{
  ℕ, ◌+◌, ◌/◌, ◌%◌, ◌≤◌, ◌<◌, ◌≡◌, sym, ◌⊎◌, Bool, true, false, ◌&&◌, ◌||◌, none, some, List, [],
  ◌∷◌, ◌++◌, arith, ap, if◌then◌else◌, ltb, length, take, drop, take-append-drop, length-take,
  length-drop, length-append, append_assoc, append-nil,
}
use better_nodejs_vless_ws.Base.Bytes.{shr32, set_after, set_all_within}
use better_nodejs_vless_ws.WsFrame.{header_length_for, write_part, encode_mux_frame}
use better_nodejs_vless_ws.WsFrame.Encode.{
  frame_header, write_header_lem, length-frame_header, nil_of_length, shape2,
}

-- A part with its length of two bytes in front.
abbrev pub counted : List ℕ → List ℕ
counted part = length part / 256 ∷ length part % 256 ∷ part

-- The layout of a Mux.Cool frame: the counted meta block, then the counted data if there is any.
abbrev pub mux_bytes : List ℕ → Bool → List ℕ → List ℕ
mux_bytes meta true payload = counted meta ++ counted payload
mux_bytes meta false payload = counted meta

write_part_within :
    (front old back part : List ℕ) (x y off : ℕ)
    → off ≡ length front
    → length old ≡ length part
    → length part ≤ 65535
    → write_part (front ++ (x ∷ y ∷ (old ++ back))) off part ≡ front ++ (counted part ++ back)
unfolding write_part
write_part_within front old back part x y off h k small =
    let n : ℕ = length part in
    let hi : ℕ = shr32 n 8 % 256 in
    let lead : List ℕ = hi ∷ [] in
    let lead2 : List ℕ = hi ∷ n % 256 % 256 ∷ [] in
    rw
      (
        set_after front (y ∷ (old ++ back)) x hi off h,
        ← append_assoc front lead (y ∷ (old ++ back)),
        set_after (front ++ lead) (old ++ back) y (n % 256 % 256) (off + 1)
            (omega (arith, length-append front lead)),
        append_assoc front lead (n % 256 % 256 ∷ (old ++ back)),
      )
      (ground (
        arith,
        set_all_within (front ++ lead2) old back part (off + 2)
            (omega (arith, length-append front lead2)) k,
        append_assoc front lead2 (old ++ back),
        append_assoc front lead2 (part ++ back),
        nil_of_length old,
        nil_of_length part,
      ))

-- A region of the array behind its first two bytes, cut where a part of `n` bytes ends.
region :
    (rest : List ℕ) (n : ℕ)
    → 2 + n ≤ length rest
    → (x y : ℕ) × (old back : List ℕ) × (length old ≡ n)
      × (length back + (2 + n) ≡ length rest)
      × (rest ≡ x ∷ y ∷ (old ++ back))
region rest n h =
    let (x, y, tail, e) = shape2 rest (omega arith) in
    (
      x,
      y,
      take n tail,
      drop n tail,
      rw length-take (omega (arith, ap length e)),
      rw length-drop (omega (arith, ap length e)),
      rw (take-append-drop n tail) e,
    )

-- A counted part, written where the array has room for it; `back` is what stays behind it.
write_part_lem :
    (front rest part : List ℕ) (off : ℕ)
    → off ≡ length front
    → 2 + length part ≤ length rest
    → length part ≤ 65535
    → (back : List ℕ) × (length back + (2 + length part) ≡ length rest)
      × (write_part (front ++ rest) off part ≡ front ++ (counted part ++ back))
write_part_lem front rest part off h room small =
    let (x, y, old, back, old_size, back_size, e) = region rest (length part) room in
    (back, back_size, rw e (write_part_within front old back part x y off h old_size small))

module _ (alloc : ℕ → List ℕ) (alloc_size : (n : ℕ) → length (alloc n) ≡ n) where
  mux_meta :
      (opcode : ℕ) (meta payload : List ℕ)
      → length meta ≤ 0xffff
      → encode_mux_frame alloc opcode meta false payload
        ≡ some (
            frame_header opcode (length (mux_bytes meta false payload))
            ++ mux_bytes meta false payload)
  unfolding encode_mux_frame
  mux_meta opcode meta payload hm =
      let plen : ℕ = 2 + length meta + 0 in
      let header : List ℕ = frame_header opcode plen in
      let (rest, size, written) =
        write_header_lem (alloc (header_length_for plen + plen)) opcode plen (alloc_size _)
          (omega arith) in
      let (back, left, e) =
        write_part_lem header rest meta (header_length_for plen)
          (sym (length-frame_header opcode plen)) (omega arith) hm in
      let whole : plen ≡ length (counted meta) = omega arith in
      ground (arith, written, e, whole, nil_of_length back, append-nil (counted meta))

  mux_data :
      (opcode : ℕ) (meta payload : List ℕ)
      → length meta ≤ 0xffff
      → length payload ≤ 0xffff
      → encode_mux_frame alloc opcode meta true payload
        ≡ some (
            frame_header opcode (length (mux_bytes meta true payload))
            ++ mux_bytes meta true payload)
  unfolding encode_mux_frame
  mux_data opcode meta payload hm hp =
      let plen : ℕ = 2 + length meta + (2 + length payload) in
      let header : List ℕ = frame_header opcode plen in
      let offset : ℕ = header_length_for plen in
      let lead : length header ≡ offset = length-frame_header opcode plen in
      let (rest, size, written) =
        write_header_lem (alloc (offset + plen)) opcode plen (alloc_size _) (omega arith) in
      let (back, left, e) = write_part_lem header rest meta offset (sym lead) (omega arith) hm in
      let (back2, left2, e2) =
        write_part_lem (header ++ counted meta) back payload (offset + 2 + length meta)
          (omega (arith, length-append header (counted meta))) (omega arith) hp in
      let whole : plen ≡ length (counted meta ++ counted payload) =
        omega (arith, length-append (counted meta) (counted payload)) in
      ground (
        arith,
        written,
        e,
        e2,
        whole,
        append_assoc header (counted meta) back,
        append_assoc header (counted meta) (counted payload ++ back2),
        nil_of_length back2,
        append-nil (counted payload),
      )

  mux_refused :
      (opcode : ℕ) (meta : List ℕ) (has_data : Bool) (payload : List ℕ)
      → (0xffff < length meta) ⊎ ((has_data ≡ true) × (0xffff < length payload))
      → encode_mux_frame alloc opcode meta has_data payload ≡ none
  unfolding encode_mux_frame
  mux_refused opcode meta has_data payload h = ground arith

  -- `encodeMuxFrame` refuses exactly what a field of 16 bits cannot count: a meta block over 65535
  -- bytes, or data over 65535 bytes. Anything else becomes a WebSocket frame around the Mux.Cool
  -- frame, each length as it is, whatever the array from `allocUnsafe` held. That function returns
  -- arrays of the size asked for.
  pub encode_mux_frame_lem :
      (opcode : ℕ) (meta : List ℕ) (has_data : Bool) (payload : List ℕ)
      → encode_mux_frame alloc opcode meta has_data payload ≡ (
          if ltb 0xffff (length meta) || (has_data && ltb 0xffff (length payload))
          then none
          else some (
              frame_header opcode (length (mux_bytes meta has_data payload))
              ++ mux_bytes meta has_data payload))
  encode_mux_frame_lem opcode meta true payload =
      ground (arith, mux_refused opcode meta true payload, mux_data opcode meta payload)
  encode_mux_frame_lem opcode meta false payload =
      ground (arith, mux_refused opcode meta false payload, mux_meta opcode meta payload)
