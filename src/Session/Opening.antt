-- ===== src/Session/Opening.antt =====
-- src/node/session.js: from the first frame of a client to the bytes that its relay gets.
use better_nodejs_vless_ws.Base.{
  ℕ, ◌≤◌, ◌≡◌, refl, ap, sym, ◌∙◌, Bool, true, false, List, [], ◌∷◌, ◌++◌, ◌==◌, length, drop,
  arith, append_assoc, append-nil, Bool-cases, inl, inr, drop-append_left,
}
use better_nodejs_vless_ws.Vless.Address.{Unicode}
use better_nodejs_vless_ws.Vless.Queue.{push, flatten, clear}
use better_nodejs_vless_ws.Vless.Queue.Laws.{
  contents, IsValid, contents-push, push-IsValid, flatten-contents, flatten-IsValid, clear-IsValid,
  contents-clear,
}
use better_nodejs_vless_ws.Vless.Header.{Auth, Parsed, Request, need, fail, ok, parse_vless_header}
use better_nodejs_vless_ws.Vless.Header.Stable.{IsLocal, parse_vless_header-append}
use better_nodejs_vless_ws.Vless.Header.Bounds.{
  has_relay_command, parse_vless_header_bound, parse_vless_header_command,
}
use better_nodejs_vless_ws.WsFrame.{Frame}
use better_nodejs_vless_ws.Session.{Session}
use better_nodejs_vless_ws.Session.Tunnel.{
  start_relay, start_tunnel, on_parsed, on_message, on_frame,
}
use better_nodejs_vless_ws.Session.Streams.{
  is_message_stream, stream_bytes, run_frames, opened, tunnelled, IsPiece, stream-cases,
  on_frame-control, on_frame-data, run_frames-step,
}
use better_nodejs_vless_ws.Session.Running.{Running, flatten-push, run_frames-Running}

-- Nothing is decided yet, and `q` is what has come.
pub record Waiting (s : Session) (q : List ℕ) : Type 0 where
  pub alive : s.dead ≡ false
  pub undecided : s.vless_started ≡ false
  pub valid : IsValid s.message
  pub held : contents s.message ≡ q

module _ (unicode : Unicode) (auth : Auth) where
  on_message-Waiting :
      (s : Session) (q bytes : List ℕ)
      → Waiting s q
      → on_message unicode auth s bytes
        ≡ on_parsed
            (record s { message = (flatten (push s.message bytes)).1 })
            (parse_vless_header unicode auth (q ++ bytes))
            (q ++ bytes)
  unfolding on_message
  on_message-Waiting s q bytes w =
      let whole : (flatten (push s.message bytes)).0 ≡ q ++ bytes =
        flatten-push s.message bytes w.valid ∙ ap (λ p. p ++ bytes) w.held in
      rw (w.undecided, whole) refl

  Waiting-push :
      (s : Session) (q bytes : List ℕ)
      → Waiting s q
      → Waiting (record s { message = (flatten (push s.message bytes)).1 }) (q ++ bytes)
  Waiting-push s q bytes w =
      let v = push-IsValid s.message bytes w.valid in
      record {
        alive = w.alive;
        undecided = w.undecided;
        valid = flatten-IsValid (push s.message bytes) v;
        held =
            (flatten-contents (push s.message bytes) v).1
            ∙ contents-push s.message bytes
            ∙ ap (λ p. p ++ bytes) w.held;
      }

  -- The last piece of a message hands all that has come to the parser.
  pub on_frame-Waiting :
      (s : Session) (q : List ℕ) (inside : Bool) (f : Frame) (fs : List Frame)
      → Waiting s q
      → IsPiece inside f fs
      → f.fin ≡ true
      → (s' : Session) × Waiting s' (q ++ f.payload)
        × (on_frame unicode auth s f ≡ (
            let buf = q ++ f.payload in
            let (s'', es) = on_parsed s' (parse_vless_header unicode auth buf) buf in
            (s'', es, true)))
  on_frame-Waiting s q inside f fs w d last =
      let (on_more, on_cont, on_first) = on_frame-data unicode auth s f d.kept d.carries in
      elim (Bool-cases (f.opcode == 0)) [
        | inl cont ↦
            let joined : (flatten (push s.message f.payload)).0 ≡ q ++ f.payload =
              flatten-push s.message f.payload w.valid ∙ ap (λ p. p ++ f.payload) w.held in
            let s1 : Session = record s { message = clear (push s.message f.payload) } in
            let w1 : Waiting s1 [] = record {
              alive = w.alive;
              undecided = w.undecided;
              valid = clear-IsValid (push s.message f.payload);
              held = contents-clear (push s.message f.payload);
            } in
            (
              _,
              Waiting-push s1 [] (q ++ f.payload) w1,
              on_cont last cont ∙ rw (joined, on_message-Waiting s1 [] (q ++ f.payload) w1) refl,
            )
        | inr first ↦ (
          _,
          Waiting-push s q f.payload w,
          on_first last first ∙ rw (on_message-Waiting s q f.payload w) refl,
        )
      ]

  -- The tunnel that a request starts.
  start_tunnel-Running :
      (s : Session) (q : List ℕ) (r : Request)
      → Waiting s q
      → has_relay_command (ok r) ≡ true
      → Running (start_tunnel s r q).0 []
        × (opened (start_tunnel s r q).1 ≡ r.user.label ∷ [])
        × (tunnelled (start_tunnel s r q).1 ≡ drop r.header_end q)
  unfolding start_tunnel start_relay
  start_tunnel-Running s q r w known = (
    record {
      alive = w.alive;
      started = refl;
      relayed = known;
      valid = clear-IsValid s.message;
      held = contents-clear s.message;
    },
    rw w.alive (ground (arith, known)),
    rw w.alive (ground (arith, known, append-nil (drop r.header_end q))),
  )

  -- The answer to all that has come, with more messages behind it.
  settle :
      (fs : List Frame) (s : Session) (buf : List ℕ) (r : Request) (p : Parsed)
      → IsLocal auth
      → Waiting s buf
      → parse_vless_header unicode auth buf ≡ p
      → is_message_stream false fs ≡ true
      → parse_vless_header unicode auth (buf ++ stream_bytes fs) ≡ ok r
      → (p ≡ need
          → (opened (run_frames unicode auth s fs).1 ≡ r.user.label ∷ [])
            × (tunnelled (run_frames unicode auth s fs).1
                ≡ drop r.header_end (buf ++ stream_bytes fs)))
      → (opened (on_parsed s p buf).1 ++ opened (run_frames unicode auth (on_parsed s p buf).0 fs).1
          ≡ r.user.label ∷ [])
        × (tunnelled (on_parsed s p buf).1
              ++ tunnelled (run_frames unicode auth (on_parsed s p buf).0 fs).1
            ≡ drop r.header_end (buf ++ stream_bytes fs))
  unfolding on_parsed
  settle fs s buf r need local w e h whole later = later refl
  settle fs s buf r (fail reason) local w e h whole later =
      let stable : parse_vless_header unicode auth (buf ++ stream_bytes fs) ≡ fail reason =
        parse_vless_header-append unicode auth buf (stream_bytes fs) local (λ n. cc) ∙ e in
      cc
  settle fs s buf r (ok r') local w e h whole later =
      let stable : parse_vless_header unicode auth (buf ++ stream_bytes fs) ≡ ok r' =
        parse_vless_header-append unicode auth buf (stream_bytes fs) local (λ n. cc) ∙ e in
      let same : r' ≡ r =
        ap (λ p. elim p [ need ↦ r | fail reason ↦ r | ok x ↦ x ]) (sym stable ∙ whole) in
      let known : has_relay_command (ok r') ≡ true =
        ap has_relay_command (sym e) ∙ parse_vless_header_command unicode buf auth in
      let within : r'.header_end ≤ length buf =
        rw e at (parse_vless_header_bound unicode buf auth) in
      let (running, one, first) = start_tunnel-Running s buf r' w known in
      let (quiet, rest) = run_frames-Running unicode auth fs false _ [] running (λ e. refl) h in
      (
        rw (one, quiet, ← same) refl,
        rw (first, rest, ← same)
            (sym (drop-append_left r'.header_end buf (stream_bytes fs) within)),
      )

  -- Until the request is decided, what comes is kept; from then on it goes to the relay.
  pub run_frames-Waiting :
      (fs : List Frame) (inside : Bool) (s : Session) (q : List ℕ) (r : Request)
      → IsLocal auth
      → Waiting s q
      → (inside ≡ false → parse_vless_header unicode auth q ≡ need)
      → is_message_stream inside fs ≡ true
      → parse_vless_header unicode auth (q ++ stream_bytes fs) ≡ ok r
      → (opened (run_frames unicode auth s fs).1 ≡ r.user.label ∷ [])
        × (tunnelled (run_frames unicode auth s fs).1 ≡ drop r.header_end (q ++ stream_bytes fs))
  run_frames-Waiting [] inside s q r local w pending h e =
      let none_yet : parse_vless_header unicode auth q ≡ need = pending (ground arith) in
      cc (none_yet, append-nil q, e)
  run_frames-Waiting (f ∷ fs) inside s q r local w pending h e = elim (stream-cases inside f fs h) [
    | inl c ↦
        let (es, step, quiet, empty) = on_frame-control unicode auth s f w.alive c.kept c.control in
        let (one, rest) =
          run_frames-Waiting fs inside s q r local w pending c.later (rw c.bytes at e) in
        let (a, b) = run_frames-step unicode auth s s f fs es w.alive step in
        (a ∙ rw (quiet, one) refl, b ∙ rw (empty, rest, c.bytes) refl)
    | inr d ↦
        let buf : List ℕ = q ++ f.payload in
        let rest_of : buf ++ stream_bytes fs ≡ q ++ stream_bytes (f ∷ fs) =
          append_assoc q f.payload (stream_bytes fs) ∙ ap (λ b. q ++ b) (sym d.bytes) in
        let whole : parse_vless_header unicode auth (buf ++ stream_bytes fs) ≡ ok r =
          ap (parse_vless_header unicode auth) rest_of ∙ e in
        elim (Bool-cases f.fin) [
          | inr more ↦
              let s' : Session = record s { message = push s.message f.payload } in
              let w' : Waiting s' buf = record {
                alive = w.alive;
                undecided = w.undecided;
                valid = push-IsValid s.message f.payload w.valid;
                held = contents-push s.message f.payload ∙ ap (λ p. p ++ f.payload) w.held;
              } in
              let (one, rest) =
                run_frames-Waiting fs true s' buf r local w' (λ e. cc) (rw more at d.later) whole in
              let (a, b) =
                run_frames-step unicode auth s s' f fs [] w.alive
                  ((on_frame-data unicode auth s f d.kept d.carries).0 more) in
              (a ∙ one, b ∙ rest ∙ ap (drop r.header_end) rest_of)
          | inl last ↦
              let (s', w', step) = on_frame-Waiting s q inside f fs w d last in
              let later = rw last at d.later in
              let p : Parsed = parse_vless_header unicode auth buf in
              let (one, rest) = settle fs s' buf r p local w' refl later whole (λ undecided.
                run_frames-Waiting fs false s' buf r local w' (λ _. undecided) later whole) in
              let (a, b) = run_frames-step unicode auth s _ f fs _ w.alive step in
              (a ∙ one, b ∙ rest ∙ ap (drop r.header_end) rest_of)
        ]
  ]
