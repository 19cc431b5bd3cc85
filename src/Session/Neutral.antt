-- ===== src/Session/Neutral.antt =====
-- src/node/session.js: no HTTP route opens a connection in the statistics.
use better_nodejs_vless_ws.Base.{
  ℕ, ◌*◌, refl, Bool, true, ◌||◌, not, Option, none, some, [], ◌∷◌, ◌++◌, if◌then◌else◌, arith, ltb,
  if_either, option_either,
}
use better_nodejs_vless_ws.Base.Text.{Text, codes, text_eq}
use better_nodejs_vless_ws.Users.Labels.{is_valid_label}
use better_nodejs_vless_ws.Http.{Request}
use better_nodejs_vless_ws.Tokens.{Verdict, forged, stale, valid, verify_invite}
use better_nodejs_vless_ws.Session.{
  Session, Profile, Account, Awaited, respond, claim_burn, await_pin, sse_head, sse_start,
  sse_snapshot, start_timer, note_failure, stats_page, sse_phase, destroy, serve_decoy,
}
use better_nodejs_vless_ws.Session.Admin.{
  Auth, by_cookie, by_query, refused, Platform, Config, Peer, admin_auth, gated, failure, param_is,
  exchange_for_cookie, serve_admin_stats, serve_admin_stream, push_stats, sse_max_buffered,
  sse_skip_bytes, param, client_ip,
}
use better_nodejs_vless_ws.Session.Invite.{
  Deps, provision, serve_provision, public_host, invite_grace_ms,
}
use better_nodejs_vless_ws.Session.Redeem.{
  serve_invite, serve_valid, redeem, deliver, deliver_or_await, is_awaiting, on_pin, with_pin,
  serve_stale, split_invite, is_allowed, show_action, conf_action,
}
use better_nodejs_vless_ws.Session.Ending.{
  IsNeutral, opens-append, closes-append, stay-IsNeutral, destroy-IsNeutral, cons-IsNeutral,
  finish-IsNeutral, decoy-IsNeutral,
}

pub push_stats-IsNeutral : (s : Session) (buffered : ℕ) → IsNeutral s (push_stats s buffered)
unfolding push_stats
push_stats-IsNeutral s buffered = if_either (IsNeutral s) s.dead (stay-IsNeutral s) (
    if_either (IsNeutral s) (ltb sse_max_buffered buffered) (destroy-IsNeutral s) (
      if_either (IsNeutral s) (ltb sse_skip_bytes buffered) (stay-IsNeutral s)
        (cons-IsNeutral s sse_snapshot (s, []) refl refl (stay-IsNeutral s))))

deliver-IsNeutral :
    (platform : Platform) (config : Config) (s : Session) (req : Request) (token action : Text)
    (user : Account) (p : Profile)
    → IsNeutral s (deliver platform config s req token action user p)
unfolding deliver
deliver-IsNeutral platform config s req token action user p =
    if_either (IsNeutral s) (text_eq action conf_action) (finish-IsNeutral s _ refl refl)
      (finish-IsNeutral s _ refl refl)

pub on_pin-IsNeutral :
    (platform : Platform) (config : Config) (s : Session) (a : Awaited) (pin : Option Text)
    → IsNeutral s (on_pin platform config s a pin)
unfolding on_pin
on_pin-IsNeutral platform config s a pin =
    deliver-IsNeutral platform config s a.request a.token a.action a.account
      (with_pin config pin a.profile)

auth_either {ℓ κ} :
    {A : Type ℓ} (P : A → Type κ) (auth : Auth) {x y z : A}
    → P x
    → P y
    → P z
    → P (elim auth [ refused ↦ x | by_query ↦ y | by_cookie ↦ z ])
auth_either P refused p q r = p
auth_either P by_query p q r = q
auth_either P by_cookie p q r = r

module _ (platform : Platform) (config : Config) (peer : Peer) (s : Session) (req : Request) where
  gated-IsNeutral : (kind : Text) → IsNeutral s (gated config peer s req kind)
  unfolding gated failure
  gated-IsNeutral kind =
      cons-IsNeutral s (note_failure kind (client_ip config peer req)) (serve_decoy s 200) refl refl
        (decoy-IsNeutral s 200)

  exchange-IsNeutral : IsNeutral s (exchange_for_cookie platform config peer s req)
  unfolding exchange_for_cookie
  exchange-IsNeutral = finish-IsNeutral s _ refl refl

  pub serve_admin_stats-IsNeutral : IsNeutral s (serve_admin_stats platform config peer s req)
  unfolding serve_admin_stats
  serve_admin_stats-IsNeutral =
      let leaves = param_is platform (codes "logout") (codes "1") req.query in
      auth_either (IsNeutral s) (admin_auth platform config peer req)
        (gated-IsNeutral (codes "admin"))
        (if_either (IsNeutral s) leaves (finish-IsNeutral s _ refl refl) exchange-IsNeutral)
        (if_either (IsNeutral s) leaves (finish-IsNeutral s _ refl refl)
          (finish-IsNeutral s (respond 200 stats_page []) refl refl))

  stream-IsNeutral :
      (head_ok : Bool) (buffered : ℕ)
      → IsNeutral s (
          let streaming = record s { phase = sse_phase } in
          let (failed, ended) = destroy s in
          let (pushed, first) = push_stats streaming buffered in
          if head_ok
          then (
            record pushed { has_timer = true },
            sse_head ∷ sse_start ∷ (first ++ start_timer ∷ []),
          )
          else (failed, sse_head ∷ ended))
  stream-IsNeutral head_ok buffered =
      let n = push_stats-IsNeutral (record s { phase = sse_phase }) buffered in
      let first = (push_stats (record s { phase = sse_phase }) buffered).1 in
      if_either (IsNeutral s) head_ok
        (record {
          none_opened = omega (arith, opens-append first (start_timer ∷ []), n.none_opened);
          balance = omega (arith, closes-append first (start_timer ∷ []), n.balance);
          same_connected = n.same_connected;
          same_started = n.same_started;
        })
        (cons-IsNeutral s sse_head (destroy s) refl refl (destroy-IsNeutral s))

  pub serve_admin_stream-IsNeutral :
      (head_ok : Bool) (buffered : ℕ)
      → IsNeutral s (serve_admin_stream platform config peer s req head_ok buffered)
  unfolding serve_admin_stream
  serve_admin_stream-IsNeutral head_ok buffered =
      auth_either (IsNeutral s) (admin_auth platform config peer req) (decoy-IsNeutral s 200)
        (stream-IsNeutral head_ok buffered) (stream-IsNeutral head_ok buffered)

  module _ (deps : Deps) where
    provision-IsNeutral :
        (nonce : Text) (label : Option Text)
        → IsNeutral s (provision platform config deps peer s req nonce label)
    unfolding provision
    provision-IsNeutral nonce none = finish-IsNeutral s _ refl refl
    provision-IsNeutral nonce (some []) = finish-IsNeutral s _ refl refl
    provision-IsNeutral nonce (some (c ∷ cs)) =
        option_either (IsNeutral s) (deps.mintable (c ∷ cs)) (decoy-IsNeutral s 200)
          (λ user. finish-IsNeutral s _ refl refl)

    pub serve_provision-IsNeutral :
        (nonce : Text) → IsNeutral s (serve_provision platform config deps peer s req nonce)
    unfolding serve_provision
    serve_provision-IsNeutral nonce =
        auth_either (IsNeutral s) (admin_auth platform config peer req)
          (gated-IsNeutral (codes "admin"))
          (if_either (IsNeutral s) config.provisioning exchange-IsNeutral (decoy-IsNeutral s 200))
          (if_either (IsNeutral s) config.provisioning
            (provision-IsNeutral nonce (param platform (codes "label") req.query))
            (decoy-IsNeutral s 200))

    stale-IsNeutral : IsNeutral s (serve_stale s)
    unfolding serve_stale
    stale-IsNeutral = finish-IsNeutral s _ refl refl

    handed-IsNeutral :
        (token action : Text) (user : Account) (p : Profile) (host : Text)
        → IsNeutral s (elim host [
          | [] ↦ serve_stale s
          | c ∷ cs ↦ deliver_or_await platform config deps s req token action user p
        ])
    unfolding deliver_or_await
    handed-IsNeutral token action user p [] = stale-IsNeutral
    handed-IsNeutral token action user p (c ∷ cs) =
        if_either (IsNeutral s) (is_awaiting platform config deps req)
          (cons-IsNeutral s (await_pin _) (s, []) refl refl (stay-IsNeutral s))
          (deliver-IsNeutral platform config s req token action user p)

    redeem-IsNeutral :
        (token action : Text) (user : Account) (exp : ℕ) (nonce : Text)
        → IsNeutral s (redeem platform config deps s req token action user exp nonce)
    unfolding redeem
    redeem-IsNeutral token action user exp nonce =
        cons-IsNeutral s (claim_burn nonce (exp * 1000) invite_grace_ms) _ refl refl (
          if_either (IsNeutral s) (deps.claim nonce (exp * 1000) invite_grace_ms)
            (handed-IsNeutral token action user _ (public_host platform config req))
            stale-IsNeutral)

    serve_valid-IsNeutral :
        (token action label : Text) (exp : ℕ) (nonce : Text)
        → IsNeutral s (serve_valid platform config deps s req token action label exp nonce)
    unfolding serve_valid
    serve_valid-IsNeutral token action label exp nonce =
        if_either (IsNeutral s) (text_eq action []) (finish-IsNeutral s _ refl refl) (
          option_either (IsNeutral s) (deps.mintable label) stale-IsNeutral (λ user.
            if_either (IsNeutral s) (is_valid_label user.label)
              (redeem-IsNeutral token action user exp nonce) stale-IsNeutral))

    judged-IsNeutral :
        (token action : Text) (v : Verdict)
        → IsNeutral s (elim v [
          | forged ↦ gated config peer s req (codes "invite")
          | stale label nonce ↦ serve_stale s
          | valid label exp nonce ↦
              serve_valid platform config deps s req token action label exp nonce
        ])
    judged-IsNeutral token action forged = gated-IsNeutral (codes "invite")
    judged-IsNeutral token action (stale label nonce) = stale-IsNeutral
    judged-IsNeutral token action (valid label exp nonce) =
        serve_valid-IsNeutral token action label exp nonce

    pub serve_invite-IsNeutral : IsNeutral s (serve_invite platform config deps peer s req)
    unfolding serve_invite
    serve_invite-IsNeutral =
        let (token, action) = split_invite config req in
        let known = text_eq action [] || text_eq action show_action || text_eq action conf_action in
        if_either (IsNeutral s) (not (is_allowed deps.limits (client_ip config peer req)))
          (decoy-IsNeutral s 200)
          (if_either (IsNeutral s) (not known) (decoy-IsNeutral s 200) (
            judged-IsNeutral token action
              (verify_invite platform.crypto config.invite_key (some token) peer.now)))
