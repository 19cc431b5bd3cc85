-- ===== src/Session/Steps.antt =====
-- src/node/session.js: what frames do to the connection in the statistics.
use better_nodejs_vless_ws.Base.{
  ℕ, zero, suc, ◌+◌, ◌≡◌, refl, ap, ◌∙◌, sym, Bool, true, false, ◌&&◌, ◌||◌, not, List, [], ◌∷◌,
  ◌++◌, if◌then◌else◌, arith, ◌==◌, length, drop, if_either, option_either, if_cases,
}
use better_nodejs_vless_ws.Vless.Address.{Unicode}
use better_nodejs_vless_ws.Vless.Queue.{push, flatten, clear, consume}
use better_nodejs_vless_ws.Vless.Header
use better_nodejs_vless_ws.Vless.Header.{Auth, Parsed, need, fail, ok, parse_vless_header}
use better_nodejs_vless_ws.WsFrame.{Frame, decode_frame}
use better_nodejs_vless_ws.Session.{Session, Effect, ws_frame, relay_write, destroy}
use better_nodejs_vless_ws.Session.Tunnel.{
  start_relay, start_tunnel, on_parsed, on_message, reassemble, on_frame, ws_loop, handle_ws,
}
use better_nodejs_vless_ws.Session.Ending.{
  IsNeutral, live, one_if, opens, closes, opens-append, closes-append, stay-IsNeutral,
  destroy-IsNeutral, cons-IsNeutral, decoy-IsNeutral,
}

-- Opened at most once, and closed unless it is open still.
pub record Step (before : ℕ) (started : Bool) (r : Session × List Effect) : Type 0 where
  pub once : opens r.1 + one_if started ≡ one_if r.0.vless_started
  pub balance : closes r.1 + live r.0 ≡ opens r.1 + before
  pub agrees : r.0.connected ≡ r.0.vless_started

abbrev pub IsStep : Session → Session × List Effect → Type 0
IsStep s r = Step (live s) s.vless_started r

-- `connInfo` is set when the tunnel has started.
abbrev pub Agrees : Session → Type 0
Agrees s = s.connected ≡ s.vless_started

pub neutral-IsStep :
    (s : Session) (r : Session × List Effect) → Agrees s → IsNeutral s r → IsStep s r
neutral-IsStep s r a n = record {
  once = omega (arith, n.none_opened, ap one_if n.same_started);
  balance = omega (arith, n.none_opened, n.balance);
  agrees = n.same_connected ∙ a ∙ sym n.same_started;
}

pub then-IsStep :
    (s : Session) (r t : Session × List Effect)
    → IsStep s r
    → IsStep r.0 t
    → IsStep s (t.0, r.1 ++ t.1)
then-IsStep s r t p q = record {
  once = omega (arith, opens-append r.1 t.1, p.once, q.once);
  balance = omega (arith, opens-append r.1 t.1, closes-append r.1 t.1, p.balance, q.balance);
  agrees = q.agrees;
}

start_relay_quiet :
    (r : Header.Request) (initial : List ℕ)
    → (opens (start_relay r initial) ≡ 0) × (closes (start_relay r initial) ≡ 0)
unfolding start_relay
start_relay_quiet r initial = ground arith

answered_quiet :
    (dead : Bool) (es : List Effect)
    → opens es ≡ 0
    → closes es ≡ 0
    → let all = (if dead then [] else ws_frame 2 (0 ∷ 0 ∷ []) ∷ []) ++ es in
      (opens all ≡ 0) × (closes all ≡ 0)
answered_quiet true es o c = (o, c)
answered_quiet false es o c = (omega (arith, o), omega (arith, c))

on_parsed-IsStep :
    (s : Session) (p : Parsed) (buf : List ℕ)
    → Agrees s
    → s.dead ≡ false
    → s.vless_started ≡ false
    → IsStep s (on_parsed s p buf)
unfolding on_parsed start_tunnel
on_parsed-IsStep s need buf a alive waiting = neutral-IsStep s (s, []) a (stay-IsNeutral s)
on_parsed-IsStep s (fail reason) buf a alive waiting =
    neutral-IsStep s _ a (decoy-IsNeutral (record s { message = clear s.message }) 200)
on_parsed-IsStep s (ok r) buf a alive waiting =
    let (o, c) = start_relay_quiet r (drop r.header_end buf) in
    let (o', c') = answered_quiet s.dead (start_relay r (drop r.header_end buf)) o c in
    let closed : live s ≡ 0 = rw (a ∙ waiting) refl in
    let open' : one_if (not s.dead) ≡ 1 = rw alive refl in
    record {
      once = omega (arith, o', ap one_if waiting);
      balance = omega (arith, o', c', closed, open');
      agrees = refl;
    }

relay-IsNeutral :
    (s : Session) (b : Bool) (bytes : List ℕ)
    → IsNeutral s (s, if b then relay_write bytes ∷ [] else [])
relay-IsNeutral s true bytes =
    cons-IsNeutral s (relay_write bytes) (s, []) refl refl (stay-IsNeutral s)
relay-IsNeutral s false bytes = stay-IsNeutral s

-- A data frame's message, or any other frame, in a session that is alive.
on_message-IsStep :
    (unicode : Unicode) (auth : Auth) (s : Session) (bytes : List ℕ)
    → Agrees s
    → s.dead ≡ false
    → IsStep s (on_message unicode auth s bytes)
unfolding on_message
on_message-IsStep unicode auth s bytes a alive =
    let (buf, flat) = flatten (push s.message bytes) in
    if_cases (IsStep s) s.vless_started
      (λ started. neutral-IsStep s _ a (relay-IsNeutral s s.has_relay bytes))
      (λ waiting.
        on_parsed-IsStep (record s { message = flat }) (parse_vless_header unicode auth buf) buf a
          alive waiting)

reassemble_same :
    (s : Session) (f : Frame)
    → let r = (reassemble s f).0 in
      (r.connected ≡ s.connected) × (r.vless_started ≡ s.vless_started) × (r.dead ≡ s.dead)
unfolding reassemble
reassemble_same s f = ground arith

same-IsStep :
    (s t : Session) (r : Session × List Effect)
    → (t.connected ≡ s.connected) × (t.vless_started ≡ s.vless_started) × (t.dead ≡ s.dead)
    → IsStep t r
    → IsStep s r
same-IsStep s t r (c, v, d) p =
    let same : live t ≡ live s = rw (c, d) refl in
    record {
      once = omega (arith, p.once, ap one_if v);
      balance = omega (arith, p.balance, same);
      agrees = p.agrees;
    }

pong-IsNeutral :
    (s : Session) (b : Bool) (payload : List ℕ)
    → IsNeutral s (s, if b then [] else ws_frame 10 payload ∷ [])
pong-IsNeutral s true payload = stay-IsNeutral s
pong-IsNeutral s false payload =
    cons-IsNeutral s (ws_frame 10 payload) (s, []) refl refl (stay-IsNeutral s)

module _ (unicode : Unicode) (auth : Auth) where
  on_frame-IsStep :
      (s : Session) (f : Frame)
      → Agrees s
      → s.dead ≡ false
      → let o = on_frame unicode auth s f in IsStep s (o.0, o.1)
  unfolding on_frame
  on_frame-IsStep s f a alive =
      let (s', whole) = reassemble s f in
      let (c, v, d) = reassemble_same s f in
      let P : Session × List Effect × Bool → Type 0 = λ o. IsStep s (o.0, o.1) in
      let a' : Agrees s' = c ∙ a ∙ sym v in
      if_either P (f.opcode == 8) (neutral-IsStep s (destroy s) a (destroy-IsNeutral s)) (
        if_either P (f.opcode == 9) (neutral-IsStep s _ a (pong-IsNeutral s s.dead f.payload)) (
          if_either P (not (f.opcode == 0) && not (f.opcode == 1) && not (f.opcode == 2))
            (neutral-IsStep s (s, []) a (stay-IsNeutral s))
            (option_either (IsStep s) whole
              (same-IsStep s s' (s', []) (c, v, d)
                (neutral-IsStep s' (s', []) a' (stay-IsNeutral s')))
              (λ message.
                same-IsStep s s' _ (c, v, d)
                  (on_message-IsStep unicode auth s' message a' (d ∙ alive))))))

  ws_loop-IsStep : (fuel : ℕ) (s : Session) → Agrees s → IsStep s (ws_loop unicode auth fuel s)
  unfolding ws_loop
  ws_loop-IsStep zero s a = neutral-IsStep s (s, []) a (stay-IsNeutral s)
  ws_loop-IsStep (suc fuel) s a =
      let (buf, flat) = flatten s.inbound in
      if_cases (IsStep s) (s.dead || length buf == 0)
        (λ _. neutral-IsStep s (s, []) a (stay-IsNeutral s))
        (λ go.
          option_either (IsStep s) (decode_frame buf)
            (neutral-IsStep s (record s { inbound = flat }, []) a
              (stay-IsNeutral (record s { inbound = flat })))
            (λ f.
              let o = on_frame unicode auth (record s { inbound = consume flat f.consumed }) f in
              let p : IsStep s (o.0, o.1) =
                on_frame-IsStep (record s { inbound = consume flat f.consumed }) f a
                  (ground arith) in
              if_either (IsStep s) o.2
                (then-IsStep s (o.0, o.1) (ws_loop unicode auth fuel o.0) p
                  (ws_loop-IsStep fuel o.0 p.agrees))
                p))

  pub handle_ws-IsStep : (s : Session) → Agrees s → IsStep s (handle_ws unicode auth s)
  unfolding handle_ws
  handle_ws-IsStep s a = ws_loop-IsStep (suc s.inbound.size) s a
