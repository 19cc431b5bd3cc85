-- ===== src/Session/Gate.antt =====
-- src/node/session.js: what a client without a credential sees of the hidden routes.
use better_nodejs_vless_ws.Base.{
  ◌≡◌, refl, Bool, true, false, ◌&&◌, ◌||◌, not, some, List, [], ◌∷◌, arith, Bool-cases, if_either,
  inl, inr,
}
use better_nodejs_vless_ws.Base.Text.{Text, codes, text_eq}
use better_nodejs_vless_ws.Base.Strings.{includes, starts_with}
use better_nodejs_vless_ws.Http.{Request}
use better_nodejs_vless_ws.Tokens.{forged, verify_invite}
use better_nodejs_vless_ws.Session.{Session, Effect, note_failure, serve_decoy}
use better_nodejs_vless_ws.Session.Admin.{
  refused, admin_auth, gated, failure, serve_admin_stats, serve_admin_stream, is_get, client_ip,
  admin_path, admin_stream_path, admin_provision_path,
}
use better_nodejs_vless_ws.Session.Invite.{serve_provision}
use better_nodejs_vless_ws.Session.Redeem.{
  serve_invite, split_invite, is_allowed, show_action, conf_action,
}
use better_nodejs_vless_ws.Session.Routes.{Env, is_upgrading, route_tunnel, route}

-- Without the notes that the server keeps for itself.
abbrev pub seen : List Effect → List Effect
seen [] = []
seen (note_failure kind ip ∷ es) = seen es
seen (e ∷ es) = e ∷ seen es

or_true : (b : Bool) → (b || true) ≡ true
or_true true = refl
or_true false = refl

module _ (env : Env) (s : Session) (req : Request) where
  -- The session ends as after the decoy, and the client sees what it sees of the decoy.
  abbrev IsDecoy : Session × List Effect → Type 0
  IsDecoy r = (r.0 ≡ (serve_decoy s 200).0) × (seen r.1 ≡ seen (serve_decoy s 200).1)

  serve_decoy-IsDecoy : IsDecoy (serve_decoy s 200)
  serve_decoy-IsDecoy = (refl, refl)

  gated-IsDecoy : (kind : Text) → IsDecoy (gated env.config env.peer s req kind)
  unfolding gated failure
  gated-IsDecoy kind = (refl, refl)

  invite-IsDecoy :
      verify_invite env.platform.crypto env.config.invite_key
          (some (split_invite env.config req).0)
          env.peer.now
        ≡ forged
      → IsDecoy (serve_invite env.platform env.config env.deps env.peer s req)
  unfolding serve_invite
  invite-IsDecoy h =
      let action = (split_invite env.config req).1 in
      rw h (
        if_either IsDecoy (not (is_allowed env.deps.limits (client_ip env.config env.peer req)))
          serve_decoy-IsDecoy
          (if_either IsDecoy
            (not (text_eq action [] || text_eq action show_action || text_eq action conf_action))
            serve_decoy-IsDecoy (gated-IsDecoy (codes "invite"))))

  tunnel-IsDecoy :
      is_upgrading env.platform req && includes req.path env.config.ws_path ≡ false
      → IsDecoy (route_tunnel env s req)
  unfolding route_tunnel
  tunnel-IsDecoy h = elim (Bool-cases (is_upgrading env.platform req)) [
    | inl asks ↦
        let missed : includes req.path env.config.ws_path ≡ false = ground (arith, asks, h) in
        rw missed (
          if_either IsDecoy (not (is_get req) || not (is_upgrading env.platform req))
            serve_decoy-IsDecoy serve_decoy-IsDecoy)
    | inr plain ↦ rw (plain, or_true (not (is_get req))) serve_decoy-IsDecoy
  ]

  -- Probing finds nothing. Whatever its path, a request that `#adminAuth` refuses, whose path holds
  -- no invite but a forged one, and that is not an upgrade on the tunnel's path, leaves the session as
  -- the decoy leaves it, and apart from what the server notes for itself has the same effects in the same
  -- order as the decoy page with status 200, which is what the front page answers.
  pub route-IsDecoy :
      admin_auth env.platform env.config env.peer req ≡ refused
      → verify_invite env.platform.crypto env.config.invite_key
          (some (split_invite env.config req).0)
          env.peer.now
        ≡ forged
      → is_upgrading env.platform req && includes req.path env.config.ws_path ≡ false
      → ((route env s req).0 ≡ (serve_decoy s 200).0)
        × (seen (route env s req).1 ≡ seen (serve_decoy s 200).1)
  unfolding route serve_admin_stats serve_admin_stream serve_provision
  route-IsDecoy refuses forges plain =
      if_either IsDecoy (text_eq req.base_path admin_path)
        (rw (refuses, serve_admin_stats) (gated-IsDecoy (codes "admin")))
        (if_either IsDecoy (text_eq req.base_path admin_stream_path)
          (rw (refuses, serve_admin_stream) serve_decoy-IsDecoy)
          (if_either IsDecoy (text_eq req.base_path admin_provision_path)
            (rw (refuses, serve_provision) (gated-IsDecoy (codes "admin")))
            (if_either IsDecoy
              (not (is_upgrading env.platform req)
                && env.config.provisioning
                && starts_with req.base_path env.config.invite_path)
              (invite-IsDecoy forges) (tunnel-IsDecoy plain))))
