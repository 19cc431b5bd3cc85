-- ===== src/Session/Handed.antt =====
-- src/node/session.js: who gets a client configuration.
use better_nodejs_vless_ws.Base.{
  ℕ, ◌*◌, ◌≡◌, refl, ap, ◌∙◌, true, ◌||◌, not, some, List, [], ◌∷◌, ◌++◌, ◌⊎◌, Option,
  if◌then◌else◌, append-nil, Bool-cases, Option-cases, if_either, inl, inr,
}
use better_nodejs_vless_ws.Base.Text.{Text, codes, text_eq}
use better_nodejs_vless_ws.Users.Labels.{is_valid_label}
use better_nodejs_vless_ws.Http.{Request}
use better_nodejs_vless_ws.Tokens.{Verdict, forged, stale, valid, verify_invite}
use better_nodejs_vless_ws.Session.{
  Session, Effect, Profile, Account, Awaited, respond, claim_burn, landing_page, stale_page,
  decoy_page, finish, serve_decoy,
}
use better_nodejs_vless_ws.Session.Admin.{Platform, Config, Peer, gated, failure, client_ip}
use better_nodejs_vless_ws.Session.Invite.{Deps, invite_grace_ms, public_host}
use better_nodejs_vless_ws.Session.Redeem.{
  serve_invite, serve_valid, redeem, serve_stale, split_invite, is_allowed, show_action,
  conf_action, profile_of, with_pin, deliver_or_await, is_awaiting, on_pin,
}
use better_nodejs_vless_ws.Session.Deliveries.{
  handed_of, claimed_of, awaited_of, handed, claimed, awaited, IsQuiet, finish_hands, deliver_hands,
  with_pin-uuid,
}

Text-cases : (t : Text) → (t ≡ []) ⊎ ((c : ℕ) × (cs : Text) × (t ≡ c ∷ cs))
Text-cases [] = inl refl
Text-cases (c ∷ cs) = inr (c, cs, refl)

-- `later` is the session, and `pin` the answer, when a pin that is waited for is there.
module _ (platform : Platform) (config : Config) (deps : Deps) (peer : Peer) (s : Session)
    (req : Request) (later : Session) (pin : Option Text) where
  -- What is done when the pins that are waited for are there.
  abbrev pub resumed : List Awaited → List Effect
  resumed [] = []
  resumed (a ∷ waits) = (on_pin platform config later a pin).1 ++ resumed waits

  -- All that a request does, at once and when a pin is there.
  abbrev pub whole : Session × List Effect → List Effect
  whole r = r.1 ++ resumed (awaited r.1)

  -- The configuration that a user gets, for a host.
  abbrev pub profile_at : Account → Text → Profile
  profile_at user host =
      let profile = profile_of platform config req user host in
      if is_awaiting platform config deps req then with_pin config pin profile else profile

  abbrev pub profile_for : Account → Profile
  profile_for user = profile_at user (public_host platform config req)

  -- What has come of an invite that is handed a configuration.
  pub record IsEarned (r : Session × List Effect) : Type 0 where
    pub label : Text
    pub nonce : Text
    pub exp : ℕ
    pub user : Account
    pub signed :
        verify_invite platform.crypto config.invite_key (some (split_invite config req).0) peer.now
        ≡ valid label exp nonce
    pub known : deps.mintable label ≡ some user
    pub safe : is_valid_label user.label ≡ true
    pub unburnt : deps.claim nonce (exp * 1000) invite_grace_ms ≡ true
    pub claims : claimed r.1 ≡ nonce ∷ []
    pub claims_whole : claimed (whole r) ≡ nonce ∷ []
    pub hands : handed (whole r) ≡ profile_for user ∷ []
    pub owned : (profile_for user).uuid ≡ user.uuid

  abbrev Outcome : Session × List Effect → Type 0
  Outcome r = (handed (whole r) ≡ []) ⊎ IsEarned r

  -- Without a wait, all is done at once.
  whole_at_once : (r : Session × List Effect) → awaited r.1 ≡ [] → whole r ≡ r.1
  whole_at_once r e = rw e (append-nil r.1)

  quiet_hands : (r : Session × List Effect) → IsQuiet r.1 → Outcome r
  quiet_hands r q = inl (ap handed (whole_at_once r q.2) ∙ q.0)

  stale_hands : Outcome (serve_stale s)
  unfolding serve_stale
  stale_hands =
      quiet_hands (serve_stale s) (finish_hands s (respond 200 stale_page []) refl refl refl)

  decoy_hands : Outcome (serve_decoy s 200)
  unfolding serve_decoy
  decoy_hands =
      quiet_hands (serve_decoy s 200) (finish_hands s (respond 200 decoy_page []) refl refl refl)

  gated_hands : Outcome (gated config peer s req (codes "invite"))
  unfolding gated failure serve_decoy
  gated_hands =
      quiet_hands (gated config peer s req (codes "invite"))
        (finish_hands s (respond 200 decoy_page []) refl refl refl)

  profile_for-uuid : (user : Account) → (profile_for user).uuid ≡ user.uuid
  unfolding profile_of
  profile_for-uuid user =
      let profile = profile_of platform config req user (public_host platform config req) in
      if_either {A = Profile} (λ p. p.uuid ≡ user.uuid) (is_awaiting platform config deps req)
        (with_pin-uuid config pin profile) refl

  -- A claim, and the configuration at once or when the pin is there.
  claimed_hands :
      (token action : Text) (user : Account) (nonce : Text) (claim : Effect)
      → claimed_of claim ≡ nonce ∷ []
      → handed_of claim ≡ []
      → awaited_of claim ≡ []
      → let profile = profile_of platform config req user (public_host platform config req) in
        let r = deliver_or_await platform config deps s req token action user profile in
        (claimed (claim ∷ r.1) ≡ nonce ∷ [])
        × (claimed (whole (r.0, claim ∷ r.1)) ≡ nonce ∷ [])
        × (handed (whole (r.0, claim ∷ r.1)) ≡ profile_for user ∷ [])
  unfolding deliver_or_await on_pin
  claimed_hands token action user nonce claim c h w =
      let profile = profile_of platform config req user (public_host platform config req) in
      elim (Bool-cases (is_awaiting platform config deps req)) [
        | inl waits ↦
            let resumes =
              deliver_hands platform config later req token action user
                (with_pin config pin profile) in
            let es =
              (on_pin platform config later
                (record {
                  request = req;
                  token = token;
                  action = action;
                  account = user;
                  profile = profile;
                })
                pin).1 in
            let alone : es ++ [] ≡ es = append-nil es in
            rw (waits, c, h, w)
              (refl, ap (◌∷◌ nonce) (ap claimed alone ∙ resumes.1), ap handed alone ∙ resumes.0)
        | inr now ↦
            let at_once = deliver_hands platform config s req token action user profile in
            rw (now, c, h, w, at_once.2, append-nil)
              (ap (◌∷◌ nonce) at_once.1, ap (◌∷◌ nonce) at_once.1, at_once.0)
      ]

  redeem_hands :
      (token action : Text) (user : Account) (label : Text) (exp : ℕ) (nonce : Text)
      → verify_invite platform.crypto config.invite_key (some (split_invite config req).0) peer.now
        ≡ valid label exp nonce
      → deps.mintable label ≡ some user
      → is_valid_label user.label ≡ true
      → Outcome (redeem platform config deps s req token action user exp nonce)
  unfolding redeem serve_stale
  redeem_hands token action user label exp nonce signed known safe =
      let claim = claim_burn nonce (exp * 1000) invite_grace_ms in
      let refused = finish_hands s (respond 200 stale_page []) refl refl refl in
      let unserved : handed (whole ((serve_stale s).0, claim ∷ (serve_stale s).1)) ≡ [] =
        rw (refused.2, append-nil) refused.0 in
      elim (Bool-cases (deps.claim nonce (exp * 1000) invite_grace_ms)) [
        | inr burnt ↦ inl (rw burnt unserved)
        | inl unburnt ↦ elim (Text-cases (public_host platform config req)) [
          | inl unnamed ↦ inl (rw (unburnt, unnamed) unserved)
          | inr (c, cs, named) ↦
              let (claims, claims_whole, hands) =
                claimed_hands token action user nonce claim refl refl refl in
              inr (record {
                label = label;
                nonce = nonce;
                exp = exp;
                user = user;
                signed = signed;
                known = known;
                safe = safe;
                unburnt = unburnt;
                claims = rw (unburnt, named) claims;
                claims_whole = rw (unburnt, named) claims_whole;
                hands = rw (unburnt, named) (hands ∙ ap (λ h. profile_at user h ∷ []) named);
                owned = profile_for-uuid user;
              })
        ]
      ]

  serve_valid_hands :
      (token action label : Text) (exp : ℕ) (nonce : Text)
      → verify_invite platform.crypto config.invite_key (some (split_invite config req).0) peer.now
        ≡ valid label exp nonce
      → Outcome (serve_valid platform config deps s req token action label exp nonce)
  unfolding serve_valid
  serve_valid_hands token action label exp nonce signed = elim (Bool-cases (text_eq action [])) [
    | inl landing ↦ rw landing (
        quiet_hands (finish s (respond 200 (landing_page _) []))
          (finish_hands s (respond 200 (landing_page _) []) refl refl refl))
    | inr further ↦ elim (Option-cases (deps.mintable label)) [
      | inl unknown ↦ rw (further, unknown) stale_hands
      | inr (user, known) ↦ elim (Bool-cases (is_valid_label user.label)) [
        | inr unsafe ↦ rw (further, known, unsafe) stale_hands
        | inl safe ↦
            rw (further, known, safe)
              (redeem_hands token action user label exp nonce signed known safe)
      ]
    ]
  ]

  judged_hands :
      (v : Verdict)
      → verify_invite platform.crypto config.invite_key (some (split_invite config req).0) peer.now
        ≡ v
      → Outcome (elim v [
        | forged ↦ gated config peer s req (codes "invite")
        | stale label nonce ↦ serve_stale s
        | valid label exp nonce ↦
            serve_valid platform config deps s req
              (split_invite config req).0
              (split_invite config req).1
              label
              exp
              nonce
      ])
  judged_hands forged e = gated_hands
  judged_hands (stale label nonce) e = stale_hands
  judged_hands (valid label exp nonce) e =
      serve_valid_hands (split_invite config req).0 (split_invite config req).1 label exp nonce e

  -- A configuration is earned. Whatever the request, and whatever the pin and the session by then if
  -- `#serveInvite` waits for one, the request hands out no configuration, at once or then, or its path
  -- holds an invite that is signed and not expired, whose label stands for a user that can be minted
  -- and has a safe label, the burn store has just accepted its nonce, which is claimed once, before any
  -- wait, and exactly one configuration is handed out in all, that of this user, with its UUID.
  pub serve_invite_hands :
      (handed (whole (serve_invite platform config deps peer s req)) ≡ [])
      ⊎ IsEarned (serve_invite platform config deps peer s req)
  unfolding serve_invite
  serve_invite_hands =
      let action = (split_invite config req).1 in
      if_either Outcome (not (is_allowed deps.limits (client_ip config peer req))) decoy_hands (
        if_either Outcome
          (not (text_eq action [] || text_eq action show_action || text_eq action conf_action))
          decoy_hands (judged_hands _ refl))
