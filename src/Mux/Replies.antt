-- ===== src/Mux/Replies.antt =====
-- src/node/mux.js: what a TCP target sends goes back to the client in Keep frames.
use better_nodejs_vless_ws.Base.{
  ℕ, zero, suc, ◌≤◌, ◌≡◌, refl, ap, ◌∙◌, Bool, true, false, List, [], ◌∷◌, ◌++◌, ◌%◌, arith, All,
  if◌then◌else◌, length, map, drop, take-append-drop, length-take, length-drop,
}
use better_nodejs_vless_ws.Base.Bytes.{shr32}
use better_nodejs_vless_ws.Mux.{Mux, Effect, is_dead, send_mux, add_rx, pause_source}
use better_nodejs_vless_ws.Mux.Meta.{meta_keep}
use better_nodejs_vless_ws.Mux.Drain.{chunks, send_keep, on_data}

abbrev pub all_bytes : List (List ℕ) → List ℕ
all_bytes [] = []
all_bytes (c ∷ cs) = c ++ all_bytes cs

abbrev pub IsMuxChunk : List ℕ → Type 0
IsMuxChunk c = (1 ≤ length c) × (length c ≤ 65535)

chunks_lem :
    (fuel : ℕ) (bytes : List ℕ)
    → length bytes ≤ fuel
    → (all_bytes (chunks fuel bytes) ≡ bytes) × All IsMuxChunk (chunks fuel bytes)
unfolding chunks
chunks_lem zero [] h = (refl, tt)
chunks_lem zero (b ∷ bs) h = absurd (omega arith)
chunks_lem (suc fuel) [] h = (refl, tt)
chunks_lem (suc fuel) (b ∷ bs) h =
    let rest : List ℕ = drop 65535 (b ∷ bs) in
    let (whole, small) = chunks_lem fuel rest (rw (length-drop 65535 (b ∷ bs)) (omega arith)) in
    (
      rw whole (take-append-drop 65535 (b ∷ bs)),
      (
        (
          rw (length-take 65535 (b ∷ bs)) (omega arith),
          rw (length-take 65535 (b ∷ bs)) (omega arith),
        ),
        small,
      ),
    )

-- The data of the frames among some effects, joined up.
abbrev pub frame_bytes : List Effect → List ℕ
frame_bytes [] = []
frame_bytes (send_mux meta has_data bytes ∷ es) = bytes ++ frame_bytes es
frame_bytes (e ∷ es) = frame_bytes es

-- A Keep frame of a substream, with data that its length field can say.
abbrev pub IsKeepFrame : ℕ → Effect → Type 0
IsKeepFrame id e =
    (bytes : List ℕ) × (e ≡ send_mux (shr32 id 8 % 256 ∷ id % 256 ∷ 2 ∷ 1 ∷ []) true bytes)
    × IsMuxChunk bytes

keep_frames :
    (id : ℕ) (cs : List (List ℕ))
    → All IsMuxChunk cs
    → (frame_bytes (map (λ c. send_mux (meta_keep id) true c) cs) ≡ all_bytes cs)
      × All (IsKeepFrame id) (map (λ c. send_mux (meta_keep id) true c) cs)
unfolding meta_keep
keep_frames id [] h = (refl, tt)
keep_frames id (c ∷ cs) h =
    let (whole, frames) = keep_frames id cs h.1 in
    (ap (λ xs. c ++ xs) whole, ((c, refl, h.0), frames))

-- What the target of a TCP substream sends, of any size, goes back whole and in order while the
-- session is alive: it is counted once, then come frames whose data joins up to it, each a Keep
-- frame of that substream with 1 to 65535 bytes, and then the target is paused if the client's
-- socket was full. Nothing else is done. A dead session does nothing.
pub on_data_lem :
    (m : Mux) (id socket : ℕ) (reply : List ℕ) (writable : Bool)
    → (is_dead m ≡ true → on_data m id socket reply writable ≡ [])
      × (is_dead m ≡ false
          → (frames : List Effect) × (on_data m id socket reply writable
              ≡ add_rx socket (length reply)
                ∷ (frames ++ (if writable then [] else pause_source socket ∷ [])))
            × (frame_bytes frames ≡ reply)
            × All (IsKeepFrame id) frames)
unfolding on_data send_keep
on_data_lem m id socket reply writable =
    let (whole, small) = chunks_lem (length reply) reply (omega arith) in
    let (sent, frames) = keep_frames id (chunks (length reply) reply) small in
    (
      λ dead. rw (dead, on_data) refl,
      λ alive. (send_keep id reply, rw (alive, on_data) refl, sent ∙ whole, frames),
    )
