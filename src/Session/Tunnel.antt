-- ===== src/Session/Tunnel.antt =====
-- src/node/session.js: WebSocket messages and the VLESS header, `#handleWs` and `#onMessage`.
use better_nodejs_vless_ws.Base.{
  ℕ, zero, suc, Bool, true, false, ◌&&◌, ◌||◌, not, Option, none, some, List, [], ◌∷◌, ◌++◌,
  if◌then◌else◌, ◌==◌, length, drop,
}
use better_nodejs_vless_ws.Vless.Address.{Unicode}
use better_nodejs_vless_ws.Vless.Queue.{push, flatten, consume, clear}
use better_nodejs_vless_ws.Vless.Header.{Auth, Parsed, Request, need, fail, ok, parse_vless_header}
use better_nodejs_vless_ws.WsFrame.{Frame, decode_frame}
use better_nodejs_vless_ws.Session.{
  Session, Effect, destroy, serve_decoy, ws_frame, open_connection, start_tcp, start_udp, start_mux,
  relay_write,
}

-- The relay for a command; every command that the parser lets through has one.
unfoldable pub start_relay : Request → List ℕ → List Effect
start_relay r initial =
    if r.cmd == 1
    then start_tcp r.host r.port initial ∷ []
    else if r.cmd == 2
    then start_udp r.host r.port initial ∷ []
    else if r.cmd == 3
    then start_mux initial ∷ []
    else []

-- The end of `#onMessage`, with the header decided; `buf` is all that came so far.
unfoldable pub start_tunnel : Session → Request → List ℕ → Session × List Effect
start_tunnel s r buf = (
  record s {
    vless_started = true;
    connected = true;
    message = clear s.message;
    has_relay = r.cmd == 1 || r.cmd == 2 || r.cmd == 3;
  },
  open_connection r.user.label ∷ (if s.dead then [] else ws_frame 2 (0 ∷ 0 ∷ []) ∷ [])
      ++ start_relay r (drop r.header_end buf),
)

-- What `parseVlessHeader` said of it.
unfoldable pub on_parsed : Session → Parsed → List ℕ → Session × List Effect
on_parsed s need buf = (s, [])
on_parsed s (fail reason) buf = serve_decoy (record s { message = clear s.message }) 200
on_parsed s (ok r) buf = start_tunnel s r buf

-- `#onMessage`.
unfoldable pub on_message : Unicode → Auth → Session → List ℕ → Session × List Effect
on_message unicode auth s bytes =
    let (buf, flat) = flatten (push s.message bytes) in
    if s.vless_started
    then (s, if s.has_relay then relay_write bytes ∷ [] else [])
    else on_parsed (record s { message = flat }) (parse_vless_header unicode auth buf) buf

-- A data frame: the session, and the message that it completes.
unfoldable pub reassemble : Session → Frame → Session × Option (List ℕ)
reassemble s f =
    let longer = push s.message f.payload in
    let (whole, _) = flatten longer in
    if f.opcode == 0
    then if f.fin
      then (record s { message = clear longer }, some whole)
      else (record s { message = longer }, none)
    else if f.fin
    then (s, some f.payload)
    else (record s { message = longer }, none)

-- One frame of `#handleWs`, and whether the loop goes on.
unfoldable pub on_frame : Unicode → Auth → Session → Frame → Session × List Effect × Bool
on_frame unicode auth s f =
    let (closed, ended) = destroy s in
    let (s', whole) = reassemble s f in
    let delivered : Session × List Effect = elim whole [
      | none ↦ (s', [])
      | some message ↦ on_message unicode auth s' message
    ] in
    if f.opcode == 8
    then (closed, ended, false)
    else if f.opcode == 9
    then (s, if s.dead then [] else ws_frame 10 f.payload ∷ [], true)
    else if not (f.opcode == 0) && not (f.opcode == 1) && not (f.opcode == 2)
    then (s, [], true)
    else (delivered.0, delivered.1, true)

-- The loop of `#handleWs`, with at most `fuel` rounds.
unfoldable pub ws_loop : Unicode → Auth → ℕ → Session → Session × List Effect
ws_loop unicode auth zero s = (s, [])
ws_loop unicode auth (suc fuel) s =
    let (buf, flat) = flatten s.inbound in
    if s.dead || length buf == 0 then (s, []) else elim (decode_frame buf) [
      | none ↦ (record s { inbound = flat }, [])
      | some f ↦
          let (s', now, go_on) =
            on_frame unicode auth (record s { inbound = consume flat f.consumed }) f in
          let (s'', later) = ws_loop unicode auth fuel s' in
          if go_on then (s'', now ++ later) else (s', now)
    ]

-- `#handleWs`: a frame takes two bytes at least, so a round for each byte and one more are enough.
unfoldable pub handle_ws : Unicode → Auth → Session → Session × List Effect
handle_ws unicode auth s = ws_loop unicode auth (suc s.inbound.size) s
