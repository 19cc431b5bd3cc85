-- ===== src/Session/Lifetime.antt =====
-- src/node/session.js: a connection in the statistics over the life of a session.
use better_nodejs_vless_ws.Base.{
  ℕ, ◌+◌, ◌≤◌, ◌≡◌, refl, ap, ◌∙◌, sym, Bool, true, false, ◌&&◌, ◌||◌, not, Option, none, some,
  List, [], ◌∷◌, ◌++◌, arith, ltb, take, if_either, option_either,
}
use better_nodejs_vless_ws.Base.Text.{Text, codes, text_eq}
use better_nodejs_vless_ws.Base.Strings.{text_get, includes, starts_with}
use better_nodejs_vless_ws.Vless.Queue.{push, flatten, consume}
use better_nodejs_vless_ws.Http.{Request, index_of_header_end, parse_request_head}
use better_nodejs_vless_ws.Session.{
  Session, Effect, Awaited, Phase, http_phase, ws_phase, sse_phase, upgrade, destroy, on_drain,
}
use better_nodejs_vless_ws.Session.Admin.{
  Platform, Config, push_stats, is_get, admin_path, admin_stream_path, admin_provision_path,
}
use better_nodejs_vless_ws.Session.Redeem.{on_pin}
use better_nodejs_vless_ws.Session.Routes.{
  Env, is_upgrading, start_ws, route_tunnel, route, handle_http, frames, feed, on_data,
}
use better_nodejs_vless_ws.Session.Ending.{
  IsNeutral, live, one_if, opens, closes, stay-IsNeutral, destroy-IsNeutral, cons-IsNeutral,
  decoy-IsNeutral, on_drain-IsNeutral,
}
use better_nodejs_vless_ws.Session.Neutral.{
  push_stats-IsNeutral, serve_admin_stats-IsNeutral, serve_admin_stream-IsNeutral,
  serve_provision-IsNeutral, serve_invite-IsNeutral, on_pin-IsNeutral,
}
use better_nodejs_vless_ws.Session.Steps.{
  IsStep, Agrees, neutral-IsStep, then-IsStep, handle_ws-IsStep,
}

phase_either {ℓ κ} :
    {A : Type ℓ} (P : A → Type κ) (phase : Phase) {x y z : A}
    → P x
    → P y
    → P z
    → P (elim phase [ http_phase ↦ x | ws_phase ↦ y | sse_phase ↦ z ])
phase_either P http_phase p q r = p
phase_either P ws_phase p q r = q
phase_either P sse_phase p q r = r

module _ (env : Env) where
  start_ws-IsNeutral : (s : Session) (key : Option Text) → IsNeutral s (start_ws s key)
  unfolding start_ws
  start_ws-IsNeutral s none = decoy-IsNeutral s 400
  start_ws-IsNeutral s (some []) = decoy-IsNeutral s 400
  start_ws-IsNeutral s (some (c ∷ cs)) =
      cons-IsNeutral s (upgrade (c ∷ cs)) (record s { phase = ws_phase }, []) refl refl
        (stay-IsNeutral (record s { phase = ws_phase }))

  route-IsNeutral : (s : Session) (req : Request) → IsNeutral s (route env s req)
  unfolding route route_tunnel
  route-IsNeutral s req =
      let P = IsNeutral s in
      if_either P (text_eq req.base_path admin_path)
        (serve_admin_stats-IsNeutral env.platform env.config env.peer s req)
        (if_either P (text_eq req.base_path admin_stream_path)
          (serve_admin_stream-IsNeutral env.platform env.config env.peer s req env.head_ok
            env.buffered)
          (if_either P (text_eq req.base_path admin_provision_path)
            (serve_provision-IsNeutral env.platform env.config env.peer s req env.deps env.nonce)
            (if_either P
              (not (is_upgrading env.platform req)
                && env.config.provisioning
                && starts_with req.base_path env.config.invite_path)
              (serve_invite-IsNeutral env.platform env.config env.peer s req env.deps)
              (if_either P (not (is_get req) || not (is_upgrading env.platform req))
                (decoy-IsNeutral s 200)
                (if_either P (not (includes req.path env.config.ws_path)) (decoy-IsNeutral s 200)
                  (start_ws-IsNeutral s (text_get (codes "sec-websocket-key") req.headers)))))))

  handle_http-IsNeutral : (s : Session) → IsNeutral s (handle_http env s)
  unfolding handle_http
  handle_http-IsNeutral s =
      let (head, flat) = flatten s.inbound in
      let P = IsNeutral s in
      option_either P (index_of_header_end head)
        (if_either P (ltb env.config.max_header_bytes flat.size)
          (destroy-IsNeutral (record s { inbound = flat }))
          (stay-IsNeutral (record s { inbound = flat })))
        (λ eoh.
          let rest = record s { inbound = consume flat (eoh + 4) } in
          option_either P (parse_request_head env.platform.unicode (take (eoh + 4) head))
            (destroy-IsNeutral rest) (λ req. route-IsNeutral rest req))

  frames-IsStep : (s : Session) → Agrees s → IsStep s (frames env s)
  unfolding frames
  frames-IsStep s a =
      phase_either (IsStep s) s.phase (neutral-IsStep s (s, []) a (stay-IsNeutral s))
        (handle_ws-IsStep env.platform.unicode env.auth s a)
        (neutral-IsStep s (s, []) a (stay-IsNeutral s))

  feed-IsStep : (s : Session) (phase : Phase) → Agrees s → IsStep s (feed env s phase)
  unfolding feed
  feed-IsStep s http_phase a =
      let p = neutral-IsStep s (handle_http env s) a (handle_http-IsNeutral s) in
      let s' = (handle_http env s).0 in
      if_either (IsStep s) s'.dead p
        (then-IsStep s (handle_http env s) (frames env s') p (frames-IsStep s' p.agrees))
  feed-IsStep s ws_phase a = frames-IsStep s a
  feed-IsStep s sse_phase a = neutral-IsStep s (s, []) a (stay-IsNeutral s)

  on_data-IsStep : (s : Session) (bytes : List ℕ) → Agrees s → IsStep s (on_data env s bytes)
  unfolding on_data
  on_data-IsStep s bytes a =
      let stays = neutral-IsStep s (s, []) a (stay-IsNeutral s) in
      let fed = feed-IsStep (record s { inbound = push s.inbound bytes }) s.phase a in
      if_either (IsStep s) s.dead stays (phase_either (IsStep s) s.phase fed fed stays)

-- What happens to a session: bytes from its client, the end of the client, a drained buffer, a
-- tick of the timer, with what is buffered, and the answer to an invite that waits for the pin.
pub data Event : Type 0 where
  received : Env → List ℕ → Event
  closed drained : Event
  ticked : ℕ → Event
  pinned : Platform → Config → Awaited → Option Text → Event

abbrev pub happen : Session → Event → Session × List Effect
happen s (received env bytes) = on_data env s bytes
happen s closed = destroy s
happen s drained = on_drain s
happen s (ticked buffered) = push_stats s buffered
happen s (pinned platform config awaited pin) = on_pin platform config s awaited pin

abbrev pub happen_all : Session → List Event → Session × List Effect
happen_all s [] = (s, [])
happen_all s (e ∷ es) =
    let (s', now) = happen s e in let (s'', later) = happen_all s' es in (s'', now ++ later)

happen-IsStep : (s : Session) (e : Event) → Agrees s → IsStep s (happen s e)
happen-IsStep s (received env bytes) a = on_data-IsStep env s bytes a
happen-IsStep s closed a = neutral-IsStep s (destroy s) a (destroy-IsNeutral s)
happen-IsStep s drained a = neutral-IsStep s (on_drain s) a (on_drain-IsNeutral s)
happen-IsStep s (ticked buffered) a =
    neutral-IsStep s (push_stats s buffered) a (push_stats-IsNeutral s buffered)
happen-IsStep s (pinned platform config awaited pin) a =
    neutral-IsStep s (on_pin platform config s awaited pin) a
      (on_pin-IsNeutral platform config s awaited pin)

happen_all-IsStep : (s : Session) (es : List Event) → Agrees s → IsStep s (happen_all s es)
happen_all-IsStep s [] a = neutral-IsStep s (s, []) a (stay-IsNeutral s)
happen_all-IsStep s (e ∷ es) a =
    let p = happen-IsStep s e a in
    then-IsStep s (happen s e) (happen_all (happen s e).0 es) p
      (happen_all-IsStep (happen s e).0 es p.agrees)

one_if_le : (b : Bool) → one_if b ≤ 1
one_if_le true = omega arith
one_if_le false = omega arith

-- The statistics count every tunnel once. Whatever happens to a session that has no connection yet,
-- in any order and with any answers from its surroundings, at most one connection is opened for it,
-- and it is closed once and exactly when the session has died: what was opened is closed, or it is
-- open in a session that is alive.
pub happen_all_counts :
    (s : Session) (es : List Event)
    → s.connected ≡ false
    → s.vless_started ≡ false
    → (opens (happen_all s es).1 ≤ 1)
      × (closes (happen_all s es).1 + live (happen_all s es).0 ≡ opens (happen_all s es).1)
happen_all_counts s es unconnected waiting =
    let p = happen_all-IsStep s es (unconnected ∙ sym waiting) in
    let none_live : live s ≡ 0 = rw unconnected refl in
    (
      omega (arith, p.once, one_if_le (happen_all s es).0.vless_started, ap one_if waiting),
      omega (arith, p.balance, none_live),
    )
