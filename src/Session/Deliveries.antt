-- ===== src/Session/Deliveries.antt =====
-- src/node/session.js: the configurations, claims and waits among the effects of a session.
use better_nodejs_vless_ws.Base.{
  ◌≡◌, refl, Bool, true, false, some, List, [], ◌∷◌, ◌++◌, Option, none, Bool-cases, inl, inr,
}
use better_nodejs_vless_ws.Base.Text.{Text, text_eq}
use better_nodejs_vless_ws.Http.{Request}
use better_nodejs_vless_ws.Session.{
  Session, Effect, Profile, Account, Awaited, await_pin, respond, respond_config, claim_burn,
  reveal_page, destroy_client, destroy, finish, timer_effects, relay_effects, connection_effects,
}
use better_nodejs_vless_ws.Session.Admin.{Platform, Config}
use better_nodejs_vless_ws.Session.Redeem.{deliver, conf_action, with_pin}

-- The configurations that an effect shows or sends.
abbrev pub handed_of : Effect → List Profile
handed_of (respond_config profile lines) = profile ∷ []
handed_of (respond status (reveal_page label url profile fallback) lines) = profile ∷ []
handed_of e = []

-- The pins that are waited for.
abbrev pub awaited_of : Effect → List Awaited
awaited_of (await_pin a) = a ∷ []
awaited_of e = []

-- The invites that are claimed, by their nonces.
abbrev pub claimed_of : Effect → List Text
claimed_of (claim_burn nonce exp grace) = nonce ∷ []
claimed_of e = []

abbrev pub handed : List Effect → List Profile
handed [] = []
handed (e ∷ es) = handed_of e ++ handed es

abbrev pub claimed : List Effect → List Text
claimed [] = []
claimed (e ∷ es) = claimed_of e ++ claimed es

abbrev pub awaited : List Effect → List Awaited
awaited [] = []
awaited (e ∷ es) = awaited_of e ++ awaited es

-- Effects that hand out nothing, claim nothing and wait for nothing.
abbrev pub IsQuiet : List Effect → Type 0
IsQuiet es = (handed es ≡ []) × (claimed es ≡ []) × (awaited es ≡ [])

ended_hands :
    (t r c : Bool)
    → IsQuiet (timer_effects t ++ (destroy_client ∷ (relay_effects r ++ connection_effects c)))
ended_hands true true true = (refl, refl, refl)
ended_hands true true false = (refl, refl, refl)
ended_hands true false true = (refl, refl, refl)
ended_hands true false false = (refl, refl, refl)
ended_hands false true true = (refl, refl, refl)
ended_hands false true false = (refl, refl, refl)
ended_hands false false true = (refl, refl, refl)
ended_hands false false false = (refl, refl, refl)

destroy_hands : (s : Session) → IsQuiet (destroy s).1
unfolding destroy
destroy_hands s = elim (Bool-cases s.dead) [
  | inl dead ↦ rw dead (refl, refl, refl)
  | inr alive ↦ rw alive (ended_hands s.has_timer s.has_relay s.connected)
]

-- A page or an answer without a configuration hands nothing out, and claims nothing.
pub finish_hands :
    (s : Session) (e : Effect)
    → handed_of e ≡ []
    → claimed_of e ≡ []
    → awaited_of e ≡ []
    → IsQuiet (finish s e).1
unfolding finish
finish_hands s e h c a =
    let (no_file, no_claim, no_wait) = destroy_hands s in
    (rw h no_file, rw c no_claim, rw a no_wait)

pub deliver_hands :
    (platform : Platform) (config : Config) (s : Session) (req : Request) (token action : Text)
    (user : Account) (p : Profile)
    → let es = (deliver platform config s req token action user p).1 in
      (handed es ≡ p ∷ []) × (claimed es ≡ []) × (awaited es ≡ [])
unfolding deliver finish
deliver_hands platform config s req token action user p =
    let (no_file, no_claim, no_wait) = destroy_hands s in
    elim (Bool-cases (text_eq action conf_action)) [
      | inl conf ↦ rw (conf, no_file, no_claim, no_wait) (refl, refl, refl)
      | inr show ↦ rw (show, no_file, no_claim, no_wait) (refl, refl, refl)
    ]

pub with_pin-uuid :
    (config : Config) (pin : Option Text) (p : Profile) → (with_pin config pin p).uuid ≡ p.uuid
unfolding with_pin
with_pin-uuid config none p = refl
with_pin-uuid config (some []) p = refl
with_pin-uuid config (some (c ∷ cs)) p = refl
