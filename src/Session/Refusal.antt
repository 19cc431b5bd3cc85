-- ===== src/Session/Refusal.antt =====
-- src/node/session.js: a client whose VLESS header is refused.
use better_nodejs_vless_ws.Base.{
  ℕ, suc, ◌<◌, ◌≡◌, refl, ap, sym, ◌∙◌, Bool, true, false, none, List, [], ◌∷◌, ◌++◌, map, ◌==◌,
  length, arith, append_assoc, append-nil, Bool-cases, inl, inr, length-append, All,
}
use better_nodejs_vless_ws.Vless.Address.{Unicode}
use better_nodejs_vless_ws.Vless.Queue.{push, clear}
use better_nodejs_vless_ws.Vless.Queue.Laws.{contents, IsValid, contents-push, push-IsValid}
use better_nodejs_vless_ws.Vless.Header.{Auth, Parsed, Reason, need, fail, ok, parse_vless_header}
use better_nodejs_vless_ws.Vless.Header.Stable.{IsLocal, parse_vless_header-append}
use better_nodejs_vless_ws.WsFrame.{Frame, decode_frame}
use better_nodejs_vless_ws.Session.{
  Session, Effect, Page, decoy_page, respond, ws_frame, destroy_client, destroy, finish,
  serve_decoy, timer_effects, relay_effects, connection_effects,
}
use better_nodejs_vless_ws.Session.Tunnel.{on_parsed, on_frame, handle_ws}
use better_nodejs_vless_ws.Session.Streams.{
  is_data, is_message_stream, stream_bytes, run_frames, opened, tunnelled, opened-append,
  tunnelled-append, stream-cases, on_frame-data,
}
use better_nodejs_vless_ws.Session.Opening.{Waiting, on_frame-Waiting}
use better_nodejs_vless_ws.Session.Unread.{forget}
use better_nodejs_vless_ws.Session.Wire.{
  SentFrame, IsSent, wire, frame_of, length-wire, parse_nil, run_frames-dead, ws_loop-run_frames,
}

abbrev shown_of : Effect → List (ℕ × Page)
shown_of (respond status page lines) = (status, page) ∷ []
shown_of e = []

-- The pages that are answered, with their status.
abbrev pub shown : List Effect → List (ℕ × Page)
shown [] = []
shown (e ∷ es) = shown_of e ++ shown es

shown-append : (a b : List Effect) → shown (a ++ b) ≡ shown a ++ shown b
shown-append [] b = refl
shown-append (e ∷ es) b = rw (shown-append es b, append_assoc) refl

-- Nothing but the decoy, once.
pub record IsRefusal (es : List Effect) : Type 0 where
  pub nothing_opened : opened es ≡ []
  pub nothing_sent : tunnelled es ≡ []
  pub decoy_shown : shown es ≡ (200, decoy_page) ∷ []

-- Nothing of these.
record IsSilent (es : List Effect) : Type 0 where
  no_opened : opened es ≡ []
  no_sent : tunnelled es ≡ []
  no_shown : shown es ≡ []

silent-IsRefusal : (a b : List Effect) → IsSilent a → IsRefusal b → IsRefusal (a ++ b)
silent-IsRefusal a b s r = record {
  nothing_opened = rw (opened-append, s.no_opened) r.nothing_opened;
  nothing_sent = rw (tunnelled-append, s.no_sent) r.nothing_sent;
  decoy_shown = rw (shown-append, s.no_shown) r.decoy_shown;
}

ended-IsSilent :
    (t r c : Bool)
    → IsSilent (timer_effects t ++ (destroy_client ∷ (relay_effects r ++ connection_effects c)))
ended-IsSilent true true true = record { no_opened = refl; no_sent = refl; no_shown = refl }
ended-IsSilent true true false = record { no_opened = refl; no_sent = refl; no_shown = refl }
ended-IsSilent true false true = record { no_opened = refl; no_sent = refl; no_shown = refl }
ended-IsSilent true false false = record { no_opened = refl; no_sent = refl; no_shown = refl }
ended-IsSilent false true true = record { no_opened = refl; no_sent = refl; no_shown = refl }
ended-IsSilent false true false = record { no_opened = refl; no_sent = refl; no_shown = refl }
ended-IsSilent false false true = record { no_opened = refl; no_sent = refl; no_shown = refl }
ended-IsSilent false false false = record { no_opened = refl; no_sent = refl; no_shown = refl }

serve_decoy-IsRefusal :
    (s : Session)
    → s.dead ≡ false
    → IsRefusal (serve_decoy s 200).1 × ((serve_decoy s 200).0.dead ≡ true)
unfolding serve_decoy finish destroy
serve_decoy-IsRefusal s alive =
    let e = ended-IsSilent s.has_timer s.has_relay s.connected in
    rw alive (
      record {
        nothing_opened = e.no_opened;
        nothing_sent = e.no_sent;
        decoy_shown = ap (◌∷◌ (200, decoy_page)) e.no_shown;
      },
      refl,
    )

module _ (unicode : Unicode) (auth : Auth) where
  on_frame-IsSilent :
      (s : Session) (f : Frame)
      → s.dead ≡ false
      → (f.opcode == 8) ≡ false
      → is_data f ≡ false
      → (e : List Effect) × (on_frame unicode auth s f ≡ (s, e, true)) × IsSilent e
  unfolding on_frame
  on_frame-IsSilent s f alive kept control = elim (Bool-cases (f.opcode == 9)) [
    | inl ping ↦ (
      ws_frame 10 f.payload ∷ [],
      rw (kept, ping, alive) refl,
      record { no_opened = refl; no_sent = refl; no_shown = refl },
    )
    | inr other ↦ ([], ground arith, record { no_opened = refl; no_sent = refl; no_shown = refl })
  ]

  run_frames-effects :
      (s s' : Session) (f : Frame) (fs : List Frame) (e : List Effect)
      → s.dead ≡ false
      → on_frame unicode auth s f ≡ (s', e, true)
      → (run_frames unicode auth s (f ∷ fs)).1 ≡ e ++ (run_frames unicode auth s' fs).1
  run_frames-effects s s' f fs e alive step = rw (step, alive) refl

  -- The answer to all that has come.
  settle-IsRefusal :
      (fs : List Frame) (s : Session) (buf : List ℕ) (reason : Reason) (p : Parsed)
      → IsLocal auth
      → Waiting s buf
      → parse_vless_header unicode auth buf ≡ p
      → parse_vless_header unicode auth (buf ++ stream_bytes fs) ≡ fail reason
      → (p ≡ need → IsRefusal (run_frames unicode auth s fs).1)
      → IsRefusal ((on_parsed s p buf).1 ++ (run_frames unicode auth (on_parsed s p buf).0 fs).1)
  unfolding on_parsed
  settle-IsRefusal fs s buf reason need local w e whole later = later refl
  settle-IsRefusal fs s buf reason (fail r) local w e whole later =
      let s' : Session = record s { message = clear s.message } in
      let (refusal, dead) = serve_decoy-IsRefusal s' w.alive in
      rw (run_frames-dead unicode auth fs (serve_decoy s' 200).0 dead, append-nil) refusal
  settle-IsRefusal fs s buf reason (ok r) local w e whole later =
      let stable : parse_vless_header unicode auth (buf ++ stream_bytes fs) ≡ ok r =
        parse_vless_header-append unicode auth buf (stream_bytes fs) local (λ n. cc) ∙ e in
      absurd cc

  run_frames-IsRefusal :
      (fs : List Frame) (inside : Bool) (s : Session) (q : List ℕ) (reason : Reason)
      → IsLocal auth
      → Waiting s q
      → (inside ≡ false → parse_vless_header unicode auth q ≡ need)
      → is_message_stream inside fs ≡ true
      → parse_vless_header unicode auth (q ++ stream_bytes fs) ≡ fail reason
      → IsRefusal (run_frames unicode auth s fs).1
  run_frames-IsRefusal [] inside s q reason local w pending h e =
      let none_yet : parse_vless_header unicode auth q ≡ need = pending (ground arith) in
      absurd (cc (none_yet, append-nil q, e))
  run_frames-IsRefusal (f ∷ fs) inside s q reason local w pending h e =
      elim (stream-cases inside f fs h) [
        | inl c ↦
            let (es, step, quiet) = on_frame-IsSilent s f w.alive c.kept c.control in
            rw (run_frames-effects s s f fs es w.alive step) (
              silent-IsRefusal es _ quiet (
                run_frames-IsRefusal fs inside s q reason local w pending c.later
                  (rw c.bytes at e)))
        | inr d ↦
            let buf : List ℕ = q ++ f.payload in
            let rest_of : buf ++ stream_bytes fs ≡ q ++ stream_bytes (f ∷ fs) =
              append_assoc q f.payload (stream_bytes fs) ∙ ap (λ b. q ++ b) (sym d.bytes) in
            let whole : parse_vless_header unicode auth (buf ++ stream_bytes fs) ≡ fail reason =
              ap (parse_vless_header unicode auth) rest_of ∙ e in
            elim (Bool-cases f.fin) [
              | inr more ↦
                  let s' : Session = record s { message = push s.message f.payload } in
                  let w' : Waiting s' buf = record {
                    alive = w.alive;
                    undecided = w.undecided;
                    valid = push-IsValid s.message f.payload w.valid;
                    held = contents-push s.message f.payload ∙ ap (λ p. p ++ f.payload) w.held;
                  } in
                  rw
                    (run_frames-effects s s' f fs [] w.alive
                      ((on_frame-data unicode auth s f d.kept d.carries).0 more))
                    (run_frames-IsRefusal fs true s' buf reason local w' (λ e. cc)
                      (rw more at d.later) whole)
              | inl last ↦
                  let (s', w', step) = on_frame-Waiting unicode auth s q inside f fs w d last in
                  let p : Parsed = parse_vless_header unicode auth buf in
                  rw (run_frames-effects s _ f fs _ w.alive step) (
                    settle-IsRefusal fs s' buf reason p local w' refl whole (λ undecided.
                      run_frames-IsRefusal fs false s' buf reason local w' (λ _. undecided)
                        (rw last at d.later) whole))
            ]
      ]

-- A refused client gets the decoy. Masked frames that carry whole messages, fragmented or not, with
-- pings and other control frames anywhere but no close, and a part of a frame behind them: if the
-- parser refuses what the messages carry, for whatever reason, then `#handleWs` opens no connection,
-- no relay gets a byte, and what the client is shown is the decoy page with status 200, once. Keys
-- have four bytes, payloads are below 4 GiB, the session is alive and has no message yet, and the
-- credential test looks at the credential only.
pub handle_ws_refuses :
    (unicode : Unicode) (auth : Auth) (s : Session) (ps : List SentFrame) (rest : List ℕ)
    (reason : Reason)
    → IsLocal auth
    → Waiting s []
    → IsValid s.inbound
    → contents s.inbound ≡ wire ps ++ rest
    → All IsSent ps
    → decode_frame rest ≡ none
    → is_message_stream false (map frame_of ps) ≡ true
    → parse_vless_header unicode auth (stream_bytes (map frame_of ps)) ≡ fail reason
    → IsRefusal (handle_ws unicode auth s).1
unfolding handle_ws
handle_ws_refuses unicode auth s ps rest reason local w v held sent partial stream refused =
    let waiting : Waiting (forget s) [] = record {
      alive = w.alive;
      undecided = w.undecided;
      valid = w.valid;
      held = w.held;
    } in
    let enough : length ps < suc s.inbound.size =
      omega (arith, v.counted, ap length held, length-append (wire ps) rest, length-wire ps) in
    rw
      (ws_loop-run_frames unicode auth ps rest (suc s.inbound.size) s (inr (v, held)) sent partial
        enough)
      (run_frames-IsRefusal unicode auth (map frame_of ps) false (forget s) [] reason local waiting
        (λ _. parse_nil unicode auth) stream refused)
