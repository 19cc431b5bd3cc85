-- ===== src/Session/Redeem.antt =====
-- src/node/session.js: the routes of an invite, `#serveInvite`. The landing page burns nothing; the
-- other two claim the invite.
use better_nodejs_vless_ws.Base.{
  ℕ, ◌*◌, Bool, true, false, ◌&&◌, ◌||◌, not, Option, none, some, List, [], ◌∷◌, ◌++◌,
  if◌then◌else◌, length, take, drop,
}
use better_nodejs_vless_ws.Base.Text.{Text, codes, text_eq}
use better_nodejs_vless_ws.Base.Strings.{index_of}
use better_nodejs_vless_ws.Users.Labels.{is_valid_label}
use better_nodejs_vless_ws.Http.{Request}
use better_nodejs_vless_ws.Tokens.{forged, stale, valid, verify_invite}
use better_nodejs_vless_ws.Session.{
  Session, Effect, Profile, Account, Awaited, await_pin, landing_page, reveal_page, stale_page,
  finish, serve_decoy, respond, respond_config, claim_burn,
}
use better_nodejs_vless_ws.Session.Admin.{Platform, Config, Peer, client_ip, gated}
use better_nodejs_vless_ws.Session.Invite.{
  invite_grace_ms, toggle_qs, public_host, front_mode, wants_udp, Limits, Deps,
}

-- The limits at the front of `#serveInvite`.
unfoldable pub is_allowed : Option Limits → Text → Bool
is_allowed none ip = true
is_allowed (some limits) ip = limits.allow_ip ip && limits.allow_all

-- The token and the action of an invite's path.
unfoldable pub split_invite : Config → Request → Text × Text
split_invite config req =
    let rest = drop (length config.invite_path) req.base_path in
    elim (index_of b'/' rest) [ none ↦ (rest, []) | some i ↦ (take i rest, drop i rest) ]

abbrev pub show_action : Text
show_action = codes "/show"

abbrev pub conf_action : Text
conf_action = codes "/conf.json"

-- The page of an invite that no longer works.
unfoldable pub serve_stale : Session → Session × List Effect
serve_stale s = finish s (respond 200 stale_page [])

-- The SNI of a profile before a pin is known.
unfoldable pub fronting : Config → Text → Option Text
fronting config mode = if text_eq mode (codes "ca") then some config.front_sni else none

unfoldable pub profile_of : Platform → Config → Request → Account → Text → Profile
profile_of platform config req user host = record {
  uuid = user.uuid;
  host = host;
  port = config.public_port;
  ws_path = config.ws_path;
  all_udp = wants_udp platform req;
  front_sni = fronting config (front_mode platform config req);
  pinned = none;
}

-- The profile once `frontPin.get()` has answered; without a pin it stays as it is.
unfoldable pub with_pin : Config → Option Text → Profile → Profile
with_pin config none profile = profile
with_pin config (some []) profile = profile
with_pin config (some (c ∷ cs)) profile = record profile {
  front_sni = some config.front_sni;
  pinned = some (c ∷ cs);
}

abbrev pub no_referrer : Text
no_referrer = codes "Referrer-Policy: no-referrer"

-- The name of the downloaded file.
unfoldable pub suffix : Profile → Text
suffix p = elim p.front_sni [
  | none ↦ []
  | some sni ↦ elim p.pinned [ none ↦ codes "-mitm" | some pin ↦ codes "-fronted" ]
]

unfoldable pub file_name : Account → Profile → Text
file_name user p =
    codes "vless-"
    ++ user.label
    ++ (if p.all_udp then codes "-udp" else [])
    ++ suffix p
    ++ codes ".json"

abbrev pub is_none : Option Text → Bool
is_none none = true
is_none (some pin) = false

-- What is handed out: the file, or the page that shows it.
unfoldable pub deliver :
    Platform → Config → Session → Request → Text → Text → Account → Profile → Session × List Effect
deliver platform config s req token action user profile =
    let mode = front_mode platform config req in
    let disposition =
      codes "Content-Disposition: attachment; filename=\""
      ++ file_name user profile
      ++ codes "\"" in
    let conf_url =
      config.invite_path ++ token ++ conf_action ++ toggle_qs (wants_udp platform req) mode in
    let fallback = text_eq mode (codes "pin") && is_none profile.pinned in
    if text_eq action conf_action
    then finish s (respond_config profile (disposition ∷ no_referrer ∷ []))
    else finish s
        (respond 200 (reveal_page user.label conf_url profile fallback) (no_referrer ∷ []))

-- Whether `frontPin.get()` is waited for.
abbrev pub is_awaiting : Platform → Config → Deps → Request → Bool
is_awaiting platform config deps req =
    text_eq (front_mode platform config req) (codes "pin") && deps.front_pin

-- From the profile on: it is handed out, unless a pin is waited for. While it is, the session goes on
-- as it is.
unfoldable pub deliver_or_await :
    Platform
    → Config
    → Deps
    → Session
    → Request
    → Text
    → Text
    → Account
    → Profile
    → Session × List Effect
deliver_or_await platform config deps s req token action user profile =
    let awaited : Awaited = record {
      request = req;
      token = token;
      action = action;
      account = user;
      profile = profile;
    } in
    if is_awaiting platform config deps req
    then (s, await_pin awaited ∷ [])
    else deliver platform config s req token action user profile

-- The rest of `#serveInvite` when the answer of `frontPin.get()` is there, in the session as it is by
-- then. (If it throws instead, the session is destroyed.)
unfoldable pub on_pin : Platform → Config → Session → Awaited → Option Text → Session × List Effect
on_pin platform config s a pin =
    deliver platform config s a.request a.token a.action a.account (with_pin config pin a.profile)

-- From `burn.claim` on, for a user of the registry.
unfoldable pub redeem :
    Platform
    → Config
    → Deps
    → Session
    → Request
    → Text
    → Text
    → Account
    → ℕ
    → Text
    → Session × List Effect
redeem platform config deps s req token action user exp nonce =
    let host = public_host platform config req in
    let profile = profile_of platform config req user host in
    let handed : Session × List Effect = elim host [
      | [] ↦ serve_stale s
      | c ∷ cs ↦ deliver_or_await platform config deps s req token action user profile
    ] in
    let (s', answer) =
      if deps.claim nonce (exp * 1000) invite_grace_ms then handed else serve_stale s in
    (s', claim_burn nonce (exp * 1000) invite_grace_ms ∷ answer)

-- A valid invite: the landing page burns nothing.
unfoldable pub serve_valid :
    Platform
    → Config
    → Deps
    → Session
    → Request
    → Text
    → Text
    → Text
    → ℕ
    → Text
    → Session × List Effect
serve_valid platform config deps s req token action label exp nonce =
    let qs = toggle_qs (wants_udp platform req) (front_mode platform config req) in
    let redeemed : Session × List Effect = elim (deps.mintable label) [
      | none ↦ serve_stale s
      | some user ↦
          if is_valid_label user.label
          then redeem platform config deps s req token action user exp nonce
          else serve_stale s
    ] in
    if text_eq action []
    then finish s (respond 200 (landing_page (config.invite_path ++ token ++ show_action ++ qs)) [])
    else redeemed

-- `#serveInvite`.
unfoldable pub serve_invite :
    Platform → Config → Deps → Peer → Session → Request → Session × List Effect
serve_invite platform config deps peer s req =
    let (token, action) = split_invite config req in
    let judged : Session × List Effect =
      elim (verify_invite platform.crypto config.invite_key (some token) peer.now) [
        | forged ↦ gated config peer s req (codes "invite")
        | stale label nonce ↦ serve_stale s
        | valid label exp nonce ↦
            serve_valid platform config deps s req token action label exp nonce
      ] in
    let known = text_eq action [] || text_eq action show_action || text_eq action conf_action in
    if not (is_allowed deps.limits (client_ip config peer req))
    then serve_decoy s 200
    else if not known
    then serve_decoy s 200
    else judged
