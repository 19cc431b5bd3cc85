-- ===== src/Session/Routes.antt =====
-- src/node/session.js: `#onData` and the routes of `#handleHttp`.
use better_nodejs_vless_ws.Base.{
  ℕ, ◌+◌, Bool, false, ◌&&◌, ◌||◌, not, Option, none, some, List, [], ◌∷◌, ◌++◌, if◌then◌else◌, ltb,
  take,
}
use better_nodejs_vless_ws.Base.Text.{Text, codes, text_eq}
use better_nodejs_vless_ws.Base.Strings.{text_get, starts_with, includes}
use better_nodejs_vless_ws.Vless.Address.{to_lower}
use better_nodejs_vless_ws.Vless.Header.{Auth}
use better_nodejs_vless_ws.Vless.Queue.{push, flatten, consume}
use better_nodejs_vless_ws.Http.{Request, index_of_header_end, parse_request_head}
use better_nodejs_vless_ws.Session.{
  Session, Effect, Phase, http_phase, ws_phase, sse_phase, destroy, serve_decoy, upgrade,
}
use better_nodejs_vless_ws.Session.Tunnel.{handle_ws}
use better_nodejs_vless_ws.Session.Admin.{
  Platform, Config, Peer, admin_path, admin_stream_path, admin_provision_path, is_get,
  serve_admin_stats, serve_admin_stream,
}
use better_nodejs_vless_ws.Session.Invite.{Deps, serve_provision}
use better_nodejs_vless_ws.Session.Redeem.{serve_invite}

-- Everything a session asks of its surroundings. `nonce` is the one that a mint would draw;
-- `head_ok` and `buffered` are what the client answers to the head of an event stream.
pub record Env : Type 0 where
  pub platform : Platform
  pub config : Config
  pub deps : Deps
  pub peer : Peer
  pub auth : Auth
  pub nonce : Text
  pub head_ok : Bool
  pub buffered : ℕ

-- Whether the request asks for a WebSocket.
unfoldable pub is_upgrading : Platform → Request → Bool
is_upgrading platform req = elim (text_get (codes "upgrade") req.headers) [
  | none ↦ false
  | some [] ↦ false
  | some (c ∷ cs) ↦ text_eq (to_lower platform.unicode (c ∷ cs)) (codes "websocket")
]

-- The upgrade, unless there is no key.
unfoldable pub start_ws : Session → Option Text → Session × List Effect
start_ws s none = serve_decoy s 400
start_ws s (some []) = serve_decoy s 400
start_ws s (some (c ∷ cs)) = (record s { phase = ws_phase }, upgrade (c ∷ cs) ∷ [])

-- The routes behind those of the operator and of invites.
unfoldable pub route_tunnel : Env → Session → Request → Session × List Effect
route_tunnel env s req =
    if not (is_get req) || not (is_upgrading env.platform req)
    then serve_decoy s 200
    else if not (includes req.path env.config.ws_path)
    then serve_decoy s 200
    else start_ws s (text_get (codes "sec-websocket-key") req.headers)

-- The routes of `#handleHttp`.
unfoldable pub route : Env → Session → Request → Session × List Effect
route env s req =
    if text_eq req.base_path admin_path
    then serve_admin_stats env.platform env.config env.peer s req
    else if text_eq req.base_path admin_stream_path
    then serve_admin_stream env.platform env.config env.peer s req env.head_ok env.buffered
    else if text_eq req.base_path admin_provision_path
    then serve_provision env.platform env.config env.deps env.peer s req env.nonce
    else if not (is_upgrading env.platform req)
        && env.config.provisioning
        && starts_with req.base_path env.config.invite_path
    then serve_invite env.platform env.config env.deps env.peer s req
    else route_tunnel env s req

-- `#handleHttp`.
unfoldable pub handle_http : Env → Session → Session × List Effect
handle_http env s =
    let (head, flat) = flatten s.inbound in
    let waiting = record s { inbound = flat } in
    elim (index_of_header_end head) [
      | none ↦ if ltb env.config.max_header_bytes flat.size then destroy waiting else (waiting, [])
      | some eoh ↦
          let rest = record s { inbound = consume flat (eoh + 4) } in
          elim (parse_request_head env.platform.unicode (take (eoh + 4) head)) [
            | none ↦ destroy rest
            | some req ↦ route env rest req
          ]
    ]

-- The end of `#onData`: frames, in a session that is one of them by now.
unfoldable pub frames : Env → Session → Session × List Effect
frames env s = elim s.phase [
  | http_phase ↦ (s, [])
  | ws_phase ↦ handle_ws env.platform.unicode env.auth s
  | sse_phase ↦ (s, [])
]

-- `#onData` in a phase that reads.
unfoldable pub feed : Env → Session → Phase → Session × List Effect
feed env s http_phase =
    let (s', now) = handle_http env s in
    let (s'', later) = frames env s' in if s'.dead then (s', now) else (s'', now ++ later)
feed env s ws_phase = frames env s
feed env s sse_phase = (s, [])

-- `#onData`. A stream of statistics keeps nothing of what its client sends.
unfoldable pub on_data : Env → Session → List ℕ → Session × List Effect
on_data env s bytes =
    let pushed = record s { inbound = push s.inbound bytes } in
    let fed = feed env pushed s.phase in
    if s.dead
    then (s, [])
    else elim s.phase [ http_phase ↦ fed | ws_phase ↦ fed | sse_phase ↦ (s, []) ]
