-- ===== src/Session/Wire.antt =====
-- src/node/session.js: the loop of `#handleWs` on what a client puts on the wire.
use better_nodejs_vless_ws.Base.{
  ℕ, zero, suc, ◌/◌, ◌%◌, ◌^◌, ◌≤◌, ◌<◌, ◌≡◌, refl, ap, sym, ◌∙◌, Bool, true, false, ◌||◌, none,
  some, List, [], ◌∷◌, ◌++◌, map, if◌then◌else◌, ◌==◌, length, drop, arith, append_assoc,
  Bool-cases, if_either, if_false, inl, inr, ◌⊎◌, drop_after, length-append, All, subst,
}
use better_nodejs_vless_ws.Vless.Address.{Unicode}
use better_nodejs_vless_ws.Vless.Queue.{ByteQueue, flatten, consume}
use better_nodejs_vless_ws.Vless.Queue.Laws.{
  contents, IsValid, flatten-contents, flatten-IsValid, consume-IsValid, contents-consume,
}
use better_nodejs_vless_ws.Vless.Header.{Auth, Request, need, ok, parse_vless_header}
use better_nodejs_vless_ws.Vless.Header.Stable.{IsLocal}
use better_nodejs_vless_ws.WsFrame.{Frame, decode_frame}
use better_nodejs_vless_ws.WsFrame.Decode.{
  client_frame, client_frame_some, decode_frame-client_frame,
}
use better_nodejs_vless_ws.Session.{Session, Effect}
use better_nodejs_vless_ws.Session.Tunnel.{on_frame, ws_loop, handle_ws}
use better_nodejs_vless_ws.Session.Streams.{
  is_message_stream, stream_bytes, run_frames, opened, tunnelled,
}
use better_nodejs_vless_ws.Session.Opening.{Waiting, run_frames-Waiting}
use better_nodejs_vless_ws.Session.Unread.{forget, forgotten_step, on_frame-forget, on_frame-Keeps}

-- A frame as a client sends it: its first byte, the masking key and the payload.
pub record SentFrame : Type 0 where
  pub first : ℕ
  pub key : List ℕ
  pub payload : List ℕ

abbrev pub wire : List SentFrame → List ℕ
wire [] = []
wire (p ∷ ps) = client_frame p.first p.key p.payload ++ wire ps

-- What it reads back as.
abbrev pub frame_of : SentFrame → Frame
frame_of p = record {
  fin = p.first / 128 == 1;
  opcode = p.first % 16;
  payload = p.payload;
  consumed = length (client_frame p.first p.key p.payload);
}

-- The key has four bytes, and the payload is below 4 GiB.
pub record IsSent (p : SentFrame) : Type 0 where
  pub key_size : length p.key ≡ 4
  pub payload_size : length p.payload < 2 ^ 32

-- What a round does now, and what the rounds behind it do unless it ends the loop.
abbrev joined : Session × List Effect × Bool → List Effect → List Effect
joined (s, now, true) later = now ++ later
joined (s, now, false) later = now

abbrev effects : Session × List Effect → List Effect
effects r = r.1

join_round :
    (o : Session × List Effect × Bool) (r : Session × List Effect)
    → effects (if o.2 then (r.0, o.1 ++ r.1) else (o.0, o.1)) ≡ joined o r.1
join_round (s, now, true) r = refl
join_round (s, now, false) r = refl

joined_forgotten :
    (o : Session × List Effect × Bool) (later : List Effect)
    → joined (forgotten_step o) later ≡ joined o later
joined_forgotten (s, now, true) later = refl
joined_forgotten (s, now, false) later = refl

module _ (unicode : Unicode) (auth : Auth) where
  ws_loop-dead : (fuel : ℕ) (s : Session) → s.dead ≡ true → (ws_loop unicode auth fuel s).1 ≡ []
  unfolding ws_loop
  ws_loop-dead zero s dead = refl
  ws_loop-dead (suc fuel) s dead = rw dead refl

  pub run_frames-dead :
      (fs : List Frame) (s : Session) → s.dead ≡ true → (run_frames unicode auth s fs).1 ≡ []
  run_frames-dead [] s dead = refl
  run_frames-dead (f ∷ fs) s dead = rw dead refl

  -- A round that finds a frame.
  ws_loop-frame :
      (fuel : ℕ) (s : Session) (buf : List ℕ) (f : Frame)
      → s.dead ≡ false
      → (flatten s.inbound).0 ≡ buf
      → (length buf == 0) ≡ false
      → decode_frame buf ≡ some f
      → let o =
          on_frame unicode auth
            (record s { inbound = consume (flatten s.inbound).1 f.consumed })
            f in
        (ws_loop unicode auth (suc fuel) s).1 ≡ joined o (ws_loop unicode auth fuel o.0).1
  unfolding ws_loop
  ws_loop-frame fuel s buf f alive whole some_bytes decoded =
      let s1 : Session = record s { inbound = consume (flatten s.inbound).1 f.consumed } in
      let o : Session × List Effect × Bool = on_frame unicode auth s1 f in
      let go : s.dead || length (flatten s.inbound).0 == 0 ≡ false = rw (alive, whole) some_bytes in
      ap effects (if_false (s.dead || length (flatten s.inbound).0 == 0) _ _ go)
      ∙ rw (whole, decoded) (join_round o (ws_loop unicode auth fuel o.0))

  run_frames-frame :
      (s : Session) (f : Frame) (fs : List Frame)
      → s.dead ≡ false
      → let o = on_frame unicode auth s f in
        (run_frames unicode auth s (f ∷ fs)).1 ≡ joined o (run_frames unicode auth o.0 fs).1
  run_frames-frame s f fs alive =
      let o : Session × List Effect × Bool = on_frame unicode auth s f in
      ap effects (if_false s.dead _ _ alive) ∙ join_round o (run_frames unicode auth o.0 fs)

  -- The loop does with the bytes on the wire what `run_frames` does with the frames.
  pub ws_loop-run_frames :
      (ps : List SentFrame) (rest : List ℕ) (fuel : ℕ) (s : Session)
      → (s.dead ≡ true) ⊎ (IsValid s.inbound × (contents s.inbound ≡ wire ps ++ rest))
      → All IsSent ps
      → decode_frame rest ≡ none
      → length ps < fuel
      → (ws_loop unicode auth fuel s).1 ≡ (run_frames unicode auth (forget s) (map frame_of ps)).1
  ws_loop-run_frames ps rest fuel s (inl dead) sent partial h =
      ws_loop-dead fuel s dead ∙ sym (run_frames-dead (map frame_of ps) (forget s) dead)
  ws_loop-run_frames ps rest zero s (inr (v, held)) sent partial h = absurd (omega arith)
  ws_loop-run_frames [] rest (suc fuel) s (inr (v, held)) sent partial h =
      let Quiet : Session × List Effect → Type 0 = λ r. r.1 ≡ [] in
      let whole : (flatten s.inbound).0 ≡ rest = (flatten-contents s.inbound v).0 ∙ held in
      unfold ws_loop in rw (whole, partial) (if_either Quiet (s.dead || length rest == 0) refl refl)
  ws_loop-run_frames (p ∷ ps) rest (suc fuel) s (inr (v, held)) sent partial h =
      elim (Bool-cases s.dead) [
        | inl dead ↦
            ws_loop-dead (suc fuel) s dead
            ∙ sym (run_frames-dead (map frame_of (p ∷ ps)) (forget s) dead)
        | inr alive ↦
            let bytes : List ℕ = client_frame p.first p.key p.payload in
            let (flat, same, _) = flatten-contents s.inbound v in
            let whole : (flatten s.inbound).0 ≡ bytes ++ (wire ps ++ rest) =
              flat ∙ held ∙ append_assoc bytes (wire ps) rest in
            let decoded : decode_frame (bytes ++ (wire ps ++ rest)) ≡ some (frame_of p) =
              decode_frame-client_frame p.first p.key p.payload (wire ps ++ rest) sent.0.key_size
                sent.0.payload_size in
            let q : ByteQueue = consume (flatten s.inbound).1 (length bytes) in
            let s1 : Session = record s { inbound = q } in
            let vq : IsValid q =
              consume-IsValid (flatten s.inbound).1 (length bytes) (flatten-IsValid s.inbound v) in
            let left : contents q ≡ wire ps ++ rest =
              contents-consume (flatten s.inbound).1 (length bytes) (flatten-IsValid s.inbound v)
              ∙ ap (drop (length bytes)) (same ∙ held ∙ append_assoc bytes (wire ps) rest)
              ∙ drop_after (length bytes) bytes (wire ps ++ rest) refl in
            let next : Session = (on_frame unicode auth s1 (frame_of p)).0 in
            let kept : (next.dead ≡ true)
                ⊎ (IsValid next.inbound × (contents next.inbound ≡ wire ps ++ rest)) =
              elim (on_frame-Keeps unicode auth s1 (frame_of p)) [
                | inl dead ↦ inl dead
                | inr e ↦ inr (subst IsValid (sym e) vq, ap contents e ∙ left)
              ] in
            let later =
              ws_loop-run_frames ps rest fuel next kept sent.1 partial (omega (arith, h)) in
            let o : Session × List Effect × Bool = on_frame unicode auth s1 (frame_of p) in
            let fs : List Frame = map frame_of ps in
            ws_loop-frame fuel s (bytes ++ (wire ps ++ rest)) (frame_of p) alive whole
              (client_frame_some p.first p.key p.payload (wire ps ++ rest)) decoded
            ∙ ap (joined o) later
            ∙ sym (
                run_frames-frame (forget s) (frame_of p) fs alive
                ∙ ap (λ r. joined r (run_frames unicode auth r.0 fs).1)
                    (on_frame-forget unicode auth s1 (frame_of p))
                ∙ joined_forgotten o (run_frames unicode auth (forget next) fs).1)
      ]

pub length-wire : (ps : List SentFrame) → length ps ≤ length (wire ps)
length-wire [] = omega arith
length-wire (p ∷ ps) = ground (
  arith,
  client_frame_some p.first p.key p.payload [],
  length-append (client_frame p.first p.key p.payload) [],
  length-append (client_frame p.first p.key p.payload) (wire ps),
  length-wire ps,
)

pub parse_nil : (unicode : Unicode) (auth : Auth) → parse_vless_header unicode auth [] ≡ need
unfolding parse_vless_header
parse_nil unicode auth = refl

-- From the wire to the relay: masked frames that carry whole messages, fragmented or not, with
-- pings and other control frames anywhere but no close, and a part of a frame behind them. If what
-- the messages carry starts with a request that the parser accepts, `#handleWs` opens one connection,
-- for the user of the request, and the relay gets exactly the bytes behind the header, in order,
-- wherever the frames cut them. Keys have four bytes, payloads are below 4 GiB, the session is alive
-- and has no message yet, and the credential test looks at the credential only.
pub handle_ws_tunnels :
    (unicode : Unicode) (auth : Auth) (s : Session) (ps : List SentFrame) (rest : List ℕ)
    (r : Request)
    → IsLocal auth
    → Waiting s []
    → IsValid s.inbound
    → contents s.inbound ≡ wire ps ++ rest
    → All IsSent ps
    → decode_frame rest ≡ none
    → is_message_stream false (map frame_of ps) ≡ true
    → parse_vless_header unicode auth (stream_bytes (map frame_of ps)) ≡ ok r
    → (opened (handle_ws unicode auth s).1 ≡ r.user.label ∷ [])
      × (tunnelled (handle_ws unicode auth s).1
          ≡ drop r.header_end (stream_bytes (map frame_of ps)))
unfolding handle_ws
handle_ws_tunnels unicode auth s ps rest r local w v held sent partial stream accepted =
    let waiting : Waiting (forget s) [] = record {
      alive = w.alive;
      undecided = w.undecided;
      valid = w.valid;
      held = w.held;
    } in
    let enough : length ps < suc s.inbound.size =
      omega (arith, v.counted, ap length held, length-append (wire ps) rest, length-wire ps) in
    let same =
      ws_loop-run_frames unicode auth ps rest (suc s.inbound.size) s (inr (v, held)) sent partial
        enough in
    let (one, bytes) =
      run_frames-Waiting unicode auth (map frame_of ps) false (forget s) [] r local waiting
        (λ _. parse_nil unicode auth) stream accepted in
    (ap opened same ∙ one, ap tunnelled same ∙ bytes)
