-- ===== src/Session/Running.antt =====
-- src/node/session.js: a tunnel whose relay runs gets every message.
use better_nodejs_vless_ws.Base.{
  ℕ, ◌≡◌, refl, ap, sym, ◌∙◌, Bool, true, false, List, [], ◌∷◌, ◌++◌, ◌==◌, arith, append_assoc,
  append-nil, Bool-cases, inl, inr,
}
use better_nodejs_vless_ws.Vless.Address.{Unicode}
use better_nodejs_vless_ws.Vless.Queue.{ByteQueue, push, flatten, clear}
use better_nodejs_vless_ws.Vless.Queue.Laws.{
  contents, IsValid, contents-push, push-IsValid, flatten-contents, clear-IsValid, contents-clear,
}
use better_nodejs_vless_ws.Vless.Header.{Auth}
use better_nodejs_vless_ws.WsFrame.{Frame}
use better_nodejs_vless_ws.Session.{Session, relay_write}
use better_nodejs_vless_ws.Session.Tunnel.{on_message}
use better_nodejs_vless_ws.Session.Streams.{
  is_message_stream, stream_bytes, run_frames, opened, tunnelled, stream-cases, on_frame-control,
  on_frame-data, run_frames-step,
}

-- The relay runs, and `q` has come of a message that is not whole.
pub record Running (s : Session) (q : List ℕ) : Type 0 where
  pub alive : s.dead ≡ false
  pub started : s.vless_started ≡ true
  pub relayed : s.has_relay ≡ true
  pub valid : IsValid s.message
  pub held : contents s.message ≡ q

pub flatten-push :
    (m : ByteQueue) (bytes : List ℕ) → IsValid m → (flatten (push m bytes)).0 ≡ contents m ++ bytes
flatten-push m bytes v =
    (flatten-contents (push m bytes) (push-IsValid m bytes v)).0 ∙ contents-push m bytes

module _ (unicode : Unicode) (auth : Auth) where
  on_message-running :
      (s : Session) (bytes : List ℕ)
      → s.vless_started ≡ true
      → s.has_relay ≡ true
      → on_message unicode auth s bytes ≡ (s, relay_write bytes ∷ [])
  unfolding on_message
  on_message-running s bytes started relayed = rw (started, relayed) refl

  -- With a relay, every message goes to it as it is.
  pub run_frames-Running :
      (fs : List Frame) (inside : Bool) (s : Session) (q : List ℕ)
      → Running s q
      → (inside ≡ false → q ≡ [])
      → is_message_stream inside fs ≡ true
      → (opened (run_frames unicode auth s fs).1 ≡ [])
        × (tunnelled (run_frames unicode auth s fs).1 ≡ q ++ stream_bytes fs)
  run_frames-Running [] inside s q r whole h = (refl, sym (append-nil q ∙ whole (ground arith)))
  run_frames-Running (f ∷ fs) inside s q r whole h = elim (stream-cases inside f fs h) [
    | inl c ↦
        let (e, step, quiet, empty) = on_frame-control unicode auth s f r.alive c.kept c.control in
        let (quiet', rest) = run_frames-Running fs inside s q r whole c.later in
        let (a, b) = run_frames-step unicode auth s s f fs e r.alive step in
        (a ∙ rw (quiet, quiet') refl, b ∙ rw (empty, rest, c.bytes) refl)
    | inr d ↦
        let (on_more, on_cont, on_first) = on_frame-data unicode auth s f d.kept d.carries in
        let joined : (flatten (push s.message f.payload)).0 ≡ q ++ f.payload =
          flatten-push s.message f.payload r.valid ∙ ap (λ p. p ++ f.payload) r.held in
        elim (Bool-cases f.fin) [
          | inr more ↦
              let s' : Session = record s { message = push s.message f.payload } in
              let r' : Running s' (q ++ f.payload) = record {
                alive = r.alive;
                started = r.started;
                relayed = r.relayed;
                valid = push-IsValid s.message f.payload r.valid;
                held = contents-push s.message f.payload ∙ ap (λ p. p ++ f.payload) r.held;
              } in
              let (quiet, rest) =
                run_frames-Running fs true s' (q ++ f.payload) r' (λ e. cc) (rw more at d.later) in
              let (a, b) = run_frames-step unicode auth s s' f fs [] r.alive (on_more more) in
              (a ∙ quiet, b ∙ rest ∙ rw (d.bytes, append_assoc) refl)
          | inl last ↦ elim (Bool-cases (f.opcode == 0)) [
            | inl cont ↦
                let s' : Session = record s { message = clear (push s.message f.payload) } in
                let r' : Running s' [] = record {
                  alive = r.alive;
                  started = r.started;
                  relayed = r.relayed;
                  valid = clear-IsValid (push s.message f.payload);
                  held = contents-clear (push s.message f.payload);
                } in
                let (quiet, rest) =
                  run_frames-Running fs false s' [] r' (λ e. refl) (rw last at d.later) in
                let (a, b) =
                  run_frames-step unicode auth s s' f fs (relay_write (q ++ f.payload) ∷ []) r.alive
                    (on_cont last cont
                      ∙ rw (joined, on_message-running s' (q ++ f.payload) r.started r.relayed)
                          refl) in
                (a ∙ quiet, b ∙ rw (rest, d.bytes, append-nil, append_assoc) refl)
            | inr first ↦
                let none_held : q ≡ [] = whole (sym d.continues ∙ first) in
                let (quiet, rest) =
                  run_frames-Running fs false s q r (λ e. none_held) (rw last at d.later) in
                let (a, b) =
                  run_frames-step unicode auth s s f fs (relay_write f.payload ∷ []) r.alive (
                    on_first last first
                    ∙ rw (on_message-running s f.payload r.started r.relayed) refl) in
                (a ∙ quiet, b ∙ rw (rest, d.bytes, append-nil, none_held) refl)
          ]
        ]
  ]
