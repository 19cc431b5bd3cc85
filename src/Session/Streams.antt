-- ===== src/Session/Streams.antt =====
-- src/node/session.js: streams of frames, and what a session does with one frame.
use better_nodejs_vless_ws.Base.{
  ℕ, ◌≡◌, refl, Bool, true, false, ◌&&◌, ◌||◌, not, List, [], ◌∷◌, ◌++◌, if◌then◌else◌, ◌==◌, arith,
  append_assoc, Bool-cases, inl, inr, ◌⊎◌,
}
use better_nodejs_vless_ws.Base.Text.{Text}
use better_nodejs_vless_ws.Vless.Address.{Unicode}
use better_nodejs_vless_ws.Vless.Queue.{push, flatten, clear}
use better_nodejs_vless_ws.Vless.Header.{Auth}
use better_nodejs_vless_ws.WsFrame.{Frame}
use better_nodejs_vless_ws.Session.{
  Session, Effect, open_connection, relay_write, start_tcp, start_udp, start_mux, ws_frame,
}
use better_nodejs_vless_ws.Session.Tunnel.{on_message, reassemble, on_frame}

-- The frames that carry a message.
abbrev pub is_data : Frame → Bool
is_data f = f.opcode == 0 || f.opcode == 1 || f.opcode == 2

-- Whole messages and control frames between them or in them, none of which closes; `inside` says
-- whether a message has begun.
abbrev pub is_message_stream : Bool → List Frame → Bool
is_message_stream inside [] = not inside
is_message_stream inside (f ∷ fs) =
    let next = is_message_stream (not f.fin) fs in
    let same = is_message_stream inside fs in
    if f.opcode == 8
    then false
    else if is_data f
    then (if f.opcode == 0 then inside else not inside) && next
    else same

-- What the messages carry, in order.
abbrev pub stream_bytes : List Frame → List ℕ
stream_bytes [] = []
stream_bytes (f ∷ fs) = let rest = stream_bytes fs in if is_data f then f.payload ++ rest else rest

-- One frame after the other, up to one that ends the loop or the session.
abbrev pub run_frames : Unicode → Auth → Session → List Frame → Session × List Effect
run_frames unicode auth s [] = (s, [])
run_frames unicode auth s (f ∷ fs) =
    let (s', now, go_on) = on_frame unicode auth s f in
    let (s'', later) = run_frames unicode auth s' fs in
    if s.dead then (s, []) else if go_on then (s'', now ++ later) else (s', now)

-- The label that a connection is opened for, and the bytes that a relay gets.
abbrev pub label_of : Effect → List Text
label_of (open_connection label) = label ∷ []
label_of e = []

abbrev pub bytes_of : Effect → List ℕ
bytes_of (start_tcp host port initial) = initial
bytes_of (start_udp host port initial) = initial
bytes_of (start_mux initial) = initial
bytes_of (relay_write bytes) = bytes
bytes_of e = []

-- All that is opened, in order.
abbrev pub opened : List Effect → List Text
opened [] = []
opened (e ∷ es) = label_of e ++ opened es

-- All that relays get, from their start on.
abbrev pub tunnelled : List Effect → List ℕ
tunnelled [] = []
tunnelled (e ∷ es) = bytes_of e ++ tunnelled es

pub opened-append : (a b : List Effect) → opened (a ++ b) ≡ opened a ++ opened b
opened-append [] b = refl
opened-append (e ∷ es) b = rw (opened-append es b, append_assoc) refl

pub tunnelled-append : (a b : List Effect) → tunnelled (a ++ b) ≡ tunnelled a ++ tunnelled b
tunnelled-append [] b = refl
tunnelled-append (e ∷ es) b = rw (tunnelled-append es b, append_assoc) refl

-- What a frame at the front of a stream is.
pub record IsControl (inside : Bool) (f : Frame) (fs : List Frame) : Type 0 where
  pub kept : (f.opcode == 8) ≡ false
  pub control : is_data f ≡ false
  pub later : is_message_stream inside fs ≡ true
  pub bytes : stream_bytes (f ∷ fs) ≡ stream_bytes fs

pub record IsPiece (inside : Bool) (f : Frame) (fs : List Frame) : Type 0 where
  pub kept : (f.opcode == 8) ≡ false
  pub carries : is_data f ≡ true
  pub continues : (f.opcode == 0) ≡ inside
  pub later : is_message_stream (not f.fin) fs ≡ true
  pub bytes : stream_bytes (f ∷ fs) ≡ f.payload ++ stream_bytes fs

pub stream-cases :
    (inside : Bool) (f : Frame) (fs : List Frame)
    → is_message_stream inside (f ∷ fs) ≡ true
    → IsControl inside f fs ⊎ IsPiece inside f fs
stream-cases inside f fs h = elim (Bool-cases (is_data f)) [
  | inr control ↦ inl (record {
    kept = ground arith;
    control = control;
    later = ground arith;
    bytes = rw control refl;
  })
  | inl carries ↦ inr (record {
    kept = ground arith;
    carries = carries;
    continues = ground arith;
    later = ground arith;
    bytes = rw carries refl;
  })
]

module _ (unicode : Unicode) (auth : Auth) where
  pub on_frame-control :
      (s : Session) (f : Frame)
      → s.dead ≡ false
      → (f.opcode == 8) ≡ false
      → is_data f ≡ false
      → (e : List Effect) × (on_frame unicode auth s f ≡ (s, e, true))
        × (opened e ≡ [])
        × (tunnelled e ≡ [])
  unfolding on_frame
  on_frame-control s f alive kept control = elim (Bool-cases (f.opcode == 9)) [
    | inl ping ↦ (ws_frame 10 f.payload ∷ [], rw (kept, ping, alive) refl, refl, refl)
    | inr other ↦ ([], ground arith, refl, refl)
  ]

  -- A data frame goes through `reassemble` to `onMessage`.
  pub on_frame-data :
      (s : Session) (f : Frame)
      → (f.opcode == 8) ≡ false
      → is_data f ≡ true
      → (f.fin ≡ false
          → on_frame unicode auth s f ≡ (record s { message = push s.message f.payload }, [], true))
        × (f.fin ≡ true
            → (f.opcode == 0) ≡ true
            → on_frame unicode auth s f ≡ (
                let m = push s.message f.payload in
                let (s', es) =
                  on_message unicode auth (record s { message = clear m }) (flatten m).0 in
                (s', es, true)))
        × (f.fin ≡ true
            → (f.opcode == 0) ≡ false
            → on_frame unicode auth s f
              ≡ (let (s', es) = on_message unicode auth s f.payload in (s', es, true)))
  unfolding on_frame reassemble
  on_frame-data s f kept carries =
      (λ more. ground arith, λ last cont. ground arith, λ last first. ground arith)

  pub run_frames-step :
      (s s' : Session) (f : Frame) (fs : List Frame) (e : List Effect)
      → s.dead ≡ false
      → on_frame unicode auth s f ≡ (s', e, true)
      → (opened (run_frames unicode auth s (f ∷ fs)).1
          ≡ opened e ++ opened (run_frames unicode auth s' fs).1)
        × (tunnelled (run_frames unicode auth s (f ∷ fs)).1
            ≡ tunnelled e ++ tunnelled (run_frames unicode auth s' fs).1)
  run_frames-step s s' f fs e alive step =
      let rest = (run_frames unicode auth s' fs).1 in
      rw (step, alive) (opened-append e rest, tunnelled-append e rest)
