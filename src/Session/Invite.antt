-- ===== src/Session/Invite.antt =====
-- src/node/session.js: the operator's provisioning page, and what invites are made of.
--
-- `Deps` is what other components answer: the rate limits of an address, the registry, the burn
-- store. Left out of a profile is the operator's CA, a constant of the configuration.
use better_nodejs_vless_ws.Base.{
  ℕ, ◌*◌, Bool, true, false, ◌&&◌, ◌||◌, Option, none, some, List, [], ◌∷◌, ◌++◌, if◌then◌else◌,
  leb, ◌==◌, length,
}
use better_nodejs_vless_ws.Base.Text.{Text, codes}
use better_nodejs_vless_ws.Base.Strings.{split_on, trim, text_get}
use better_nodejs_vless_ws.Vless.Address.{to_lower}
use better_nodejs_vless_ws.Http.{Request}
use better_nodejs_vless_ws.Tokens.{mint_invite}
use better_nodejs_vless_ws.Session.{
  Session, Effect, Account, Issued, provision_page, finish, serve_decoy, respond,
}
use better_nodejs_vless_ws.Session.Admin.{
  Platform, Config, Peer, by_cookie, by_query, refused, admin_auth, param, param_is, is_secure,
  gated, exchange_for_cookie,
}

-- `limits.invite.allow`, and the answer of `limits.global.allow('invite')`.
pub record Limits : Type 0 where
  pub allow_ip : Text → Bool
  pub allow_all : Bool

-- `claim` takes the nonce, the expiry in milliseconds and the grace; `front_pin` says
-- whether there is a `frontPin` to ask.
pub record Deps : Type 0 where
  pub limits : Option Limits
  pub mintable : Text → Option Account
  pub claim : Text → ℕ → ℕ → Bool
  pub front_pin : Bool

abbrev pub invite_grace_ms : ℕ
invite_grace_ms = 5 * 60 * 1000

-- `toggleQs`.
unfoldable pub toggle_qs : Bool → Text → Text
toggle_qs false [] = []
toggle_qs true [] = codes "?udp=1"
toggle_qs false (c ∷ cs) = codes "?front=" ++ (c ∷ cs)
toggle_qs true (c ∷ cs) = codes "?udp=1&front=" ++ (c ∷ cs)

-- A character of `[a-z0-9.-]`.
unfoldable pub is_host_char : ℕ → Bool
is_host_char c = (leb b'a' c && leb c b'z') || (leb b'0' c && leb c b'9') || c == b'.' || c == b'-'

unfoldable pub all_host_chars : Text → Bool
all_host_chars [] = true
all_host_chars (c ∷ cs) = is_host_char c && all_host_chars cs

-- A plausible name from the `Host` header; an empty text otherwise.
unfoldable pub host_name : Platform → Option Text → Text
host_name platform none = []
host_name platform (some header) = elim (split_on b':' header) [
  | [] ↦ []
  | part ∷ parts ↦
      let raw = to_lower platform.unicode (trim part) in
      if leb 1 (length raw) && leb (length raw) 253 && all_host_chars raw then raw else []
]

-- `#publicHost`.
unfoldable pub public_host : Platform → Config → Request → Text
public_host platform config req = elim config.public_host [
  | [] ↦ host_name platform (text_get (codes "host") req.headers)
  | c ∷ cs ↦ c ∷ cs
]

-- `#inviteUrl`.
unfoldable pub invite_url : Platform → Config → Peer → Request → Text → Text → Text → Text
invite_url platform config peer req token suffix query =
    let host : Text = elim (text_get (codes "host") req.headers) [
      | none ↦ public_host platform config req
      | some [] ↦ public_host platform config req
      | some (c ∷ cs) ↦ c ∷ cs
    ] in
    let scheme = if is_secure config peer req then codes "https" else codes "http" in
    scheme ++ codes "://" ++ host ++ config.invite_path ++ token ++ suffix ++ query

-- The value of `front` that is honoured: `pin` or `ca`, and only where an SNI is configured.
unfoldable pub front_mode : Platform → Config → Request → Text
front_mode platform config req = elim config.front_sni [
  | [] ↦ []
  | c ∷ cs ↦
      if param_is platform (codes "front") (codes "pin") req.query
      then codes "pin"
      else if param_is platform (codes "front") (codes "ca") req.query
      then codes "ca"
      else []
]

unfoldable pub wants_udp : Platform → Request → Bool
wants_udp platform req = param_is platform (codes "udp") (codes "1") req.query

-- The page for a user, with the invite that is minted.
unfoldable pub issue : Platform → Config → Peer → Request → Account → Text → Issued
issue platform config peer req user nonce =
    let minted =
      mint_invite platform.crypto config.invite_key user.label config.invite_ttl nonce peer.now in
    let udp = wants_udp platform req in
    let front = front_mode platform config req in
    record {
      label = user.label;
      udp = udp;
      front = front;
      url = invite_url platform config peer req minted.token [] (toggle_qs udp front);
      exp = minted.exp;
    }

-- The operator's page, for the label of the query.
unfoldable pub provision :
    Platform → Config → Deps → Peer → Session → Request → Text → Option Text → Session × List Effect
provision platform config deps peer s req nonce none =
    finish s (respond 200 (provision_page none) [])
provision platform config deps peer s req nonce (some []) =
    finish s (respond 200 (provision_page none) [])
provision platform config deps peer s req nonce (some (c ∷ cs)) = elim (deps.mintable (c ∷ cs)) [
  | none ↦ serve_decoy s 200
  | some user ↦
      finish s (respond 200 (provision_page (some (issue platform config peer req user nonce))) [])
]

-- `#serveProvision`, with the nonce that is drawn.
unfoldable pub serve_provision :
    Platform → Config → Deps → Peer → Session → Request → Text → Session × List Effect
serve_provision platform config deps peer s req nonce = elim (admin_auth platform config peer req) [
  | refused ↦ gated config peer s req (codes "admin")
  | by_query ↦
      if config.provisioning
      then exchange_for_cookie platform config peer s req
      else serve_decoy s 200
  | by_cookie ↦
      if config.provisioning
      then provision platform config deps peer s req nonce
          (param platform (codes "label") req.query)
      else serve_decoy s 200
]
