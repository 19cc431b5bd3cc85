-- ===== src/Mux/Frames.antt =====
-- src/node/mux.js: frames as `encodeMuxFrame` of src/node/wsframe.js lays them out are taken off
-- the queue whole, one at a time.
use better_nodejs_vless_ws.Base.{
  ℕ, ◌+◌, ◌/◌, ◌%◌, ◌≤◌, ◌≡◌, refl, Bool, true, false, Option, none, some, List, [], ◌∷◌, ◌++◌,
  arith, ap, length, sub, length-append, append_assoc, drop_after, ◌==◌, ◌∙◌, get_or-append,
}
use better_nodejs_vless_ws.Base.Bytes.{elem_byte, byte, byte_after, sub_after}
use better_nodejs_vless_ws.Vless.Queue.{ByteQueue, slice, consume}
use better_nodejs_vless_ws.Vless.Queue.Laws.{
  contents, IsValid, at-contents, slice-contents, contents-consume, consume-IsValid,
}
use better_nodejs_vless_ws.WsFrame.EncodeMux.{mux_bytes, counted}
use better_nodejs_vless_ws.Mux.Drain.{frame, peek, look}

pub peek-contents : (q : ByteQueue) (i : ℕ) → IsValid q → peek q i ≡ byte (contents q) i
peek-contents q i v = rw (at-contents q i v, peek) (elem_byte (contents q) i)

byte_in_meta :
    (lead meta rest : List ℕ)
    → length lead ≡ 2
    → 4 ≤ length meta
    → byte (lead ++ (meta ++ rest)) 5 ≡ byte meta 3
byte_in_meta lead meta rest two lo =
    byte_after lead (meta ++ rest) 5 3 (omega arith) ∙ get_or-append meta rest 3 0 lo

look-meta :
    (q : ByteQueue) (meta rest : List ℕ)
    → IsValid q
    → contents q ≡ counted meta ++ rest
    → 4 ≤ length meta
    → length meta ≤ 65535
    → byte meta 3 % 2 ≡ 0
    → (q' : ByteQueue) × (look q ≡ frame meta none q') × (contents q' ≡ rest) × IsValid q'
unfolding look
look-meta q meta rest v e lo hi bit =
    let n : ℕ = length meta in
    let lead : List ℕ = n / 256 ∷ n % 256 ∷ [] in
    let used : ℕ = 2 + n + 0 in
    let size : q.size ≡ 2 + n + length rest =
      omega (arith, v.counted, ap length e, length-append meta rest) in
    let opt : peek q 5 ≡ byte meta 3 =
      rw (peek-contents q 5 v, e) (byte_in_meta lead meta rest refl lo) in
    (
      consume q used,
      ground (
        arith,
        size,
        opt,
        peek-contents q 0 v,
        peek-contents q 1 v,
        ap (λ (xs : List ℕ). byte xs 0) e,
        ap (λ (xs : List ℕ). byte xs 1) e,
        slice-contents q 2 (2 + n) v,
        ap (λ (xs : List ℕ). sub xs 2 (2 + n)) e,
        sub_after lead meta rest 2 (2 + n) refl refl,
      ),
      contents-consume q used v ∙ rw e (drop_after used (counted meta) rest (omega arith)),
      consume-IsValid q used v,
    )

look-data :
    (q : ByteQueue) (meta bytes rest : List ℕ)
    → IsValid q
    → contents q ≡ counted meta ++ (counted bytes ++ rest)
    → 4 ≤ length meta
    → length meta ≤ 65535
    → length bytes ≤ 65535
    → byte meta 3 % 2 ≡ 1
    → (q' : ByteQueue) × (look q ≡ frame meta (some bytes) q') × (contents q' ≡ rest) × IsValid q'
unfolding look
look-data q meta bytes rest v e lo hi fits bit =
    let n : ℕ = length meta in
    let d : ℕ = length bytes in
    let lead : List ℕ = n / 256 ∷ n % 256 ∷ [] in
    let lead2 : List ℕ = d / 256 ∷ d % 256 ∷ [] in
    let tail : List ℕ = counted bytes ++ rest in
    let used : ℕ = 2 + n + (2 + d) in
    let size : q.size ≡ 2 + n + (2 + d) + length rest =
      omega (arith, v.counted, ap length e, length-append meta tail, length-append bytes rest) in
    let opt : peek q 5 ≡ byte meta 3 =
      rw (peek-contents q 5 v, e) (byte_in_meta lead meta tail refl lo) in
    let high : peek q (2 + n) ≡ d / 256 =
      rw (peek-contents q (2 + n) v, e) (byte_after (counted meta) tail (2 + n) 0 (omega arith)) in
    let low : peek q (2 + n + 1) ≡ d % 256 =
      rw (peek-contents q (2 + n + 1) v, e)
        (byte_after (counted meta) tail (2 + n + 1) 1 (omega arith)) in
    let read : slice q (4 + n) (4 + n + d) ≡ bytes =
      slice-contents q (4 + n) (4 + n + d) v
      ∙ rw (e, ← append_assoc (counted meta) lead2 (bytes ++ rest))
          (sub_after (counted meta ++ lead2) bytes rest (4 + n) (4 + n + d)
            (omega (arith, length-append (counted meta) lead2)) refl) in
    (
      consume q used,
      ground (
        arith,
        size,
        opt,
        high,
        low,
        read,
        peek-contents q 0 v,
        peek-contents q 1 v,
        ap (λ (xs : List ℕ). byte xs 0) e,
        ap (λ (xs : List ℕ). byte xs 1) e,
        slice-contents q 2 (2 + n) v,
        ap (λ (xs : List ℕ). sub xs 2 (2 + n)) e,
        sub_after lead meta tail 2 (2 + n) refl refl,
      ),
      contents-consume q used v
          ∙ rw (e, ← append_assoc (counted meta) (counted bytes) rest)
              (drop_after used (counted meta ++ counted bytes) rest
                (omega (arith, length-append (counted meta) (counted bytes)))),
      consume-IsValid q used v,
    )

-- The data section of a frame as the handlers get it.
abbrev pub section_of : Bool → List ℕ → Option (List ℕ)
section_of true bytes = some bytes
section_of false bytes = none

-- A frame at the front of the queue is taken off whole: meta block and data as they were written,
-- and what stood behind the frame is left. The size of the queue is the number of its bytes. The
-- layout is the one `encodeMuxFrame` writes; the meta block has its four bytes at least, its option
-- bit says whether there is data, and both parts fit 16 bits.
pub look-mux_bytes :
    (q : ByteQueue) (meta : List ℕ) (has_data : Bool) (bytes rest : List ℕ)
    → IsValid q
    → contents q ≡ mux_bytes meta has_data bytes ++ rest
    → 4 ≤ length meta
    → length meta ≤ 65535
    → length bytes ≤ 65535
    → (byte meta 3 % 2 == 1) ≡ has_data
    → (q' : ByteQueue) × (look q ≡ frame meta (section_of has_data bytes) q')
      × (contents q' ≡ rest)
      × IsValid q'
look-mux_bytes q meta true bytes rest v e lo hi fits bit =
    look-data q meta bytes rest v (e ∙ append_assoc (counted meta) (counted bytes) rest) lo hi fits
      (ground arith)
look-mux_bytes q meta false bytes rest v e lo hi fits bit =
    look-meta q meta rest v e lo hi (ground arith)
