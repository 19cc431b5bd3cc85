-- ===== src/Session/Admin.antt =====
-- src/node/session.js: the gate of the admin routes, the dashboard, its stream and its cookie.
use better_nodejs_vless_ws.Base.{
  ℕ, ◌*◌, Bool, true, false, not, Option, none, some, List, [], ◌∷◌, ◌++◌, if◌then◌else◌, ltb,
}
use better_nodejs_vless_ws.Base.Text.{Text, codes, text_eq, decimal}
use better_nodejs_vless_ws.Base.Strings.{split_on, trim, text_get}
use better_nodejs_vless_ws.Vless.Address.{Unicode}
use better_nodejs_vless_ws.Http.{Request, parse_cookies}
use better_nodejs_vless_ws.Tokens.{Crypto, verify_session, tokens_match, mint_session}
use better_nodejs_vless_ws.Session.{
  Session, Effect, sse_phase, stats_page, destroy, finish, serve_decoy, respond, redirect_to,
  note_failure, sse_head, sse_start, sse_snapshot, start_timer,
}

-- What the platform does with a query: `new URLSearchParams(query)`, and `toString`.
pub record Platform : Type 0 where
  pub crypto : Crypto
  pub unicode : Unicode
  pub search_params : Text → List (Text × Text)
  pub params_text : List (Text × Text) → Text

-- The configuration; an empty text is an unset one.
pub record Config : Type 0 where
  pub max_header_bytes : ℕ
  pub provisioning : Bool
  pub trust_proxy : Bool
  pub ws_path : Text
  pub invite_path : Text
  pub admin_token : Option Text
  pub session_key : List ℕ
  pub session_ttl : ℕ
  pub invite_key : List ℕ
  pub invite_ttl : ℕ
  pub public_host : Text
  pub public_port : ℕ
  pub front_sni : Text

-- The socket: whether it is encrypted, its peer's address, and the second on the clock.
pub record Peer : Type 0 where
  pub encrypted : Bool
  pub remote_address : Text
  pub now : ℕ

abbrev pub admin_path : Text
admin_path = codes "/admin-stats"

abbrev pub admin_stream_path : Text
admin_stream_path = codes "/admin-stats/stream"

abbrev pub admin_provision_path : Text
admin_provision_path = codes "/admin-stats/provision"

-- What stands before the first comma, without the space around it.
unfoldable pub first_value : Text → Text
first_value value = elim (split_on b',' value) [ [] ↦ [] | part ∷ parts ↦ trim part ]

-- `clientIp` of src/node/ratelimit.js.
unfoldable pub client_ip : Config → Peer → Request → Text
client_ip config peer req =
    let socket : Text = elim peer.remote_address [ [] ↦ codes "?" | c ∷ cs ↦ c ∷ cs ] in
    let forwarded : Text = elim (text_get (codes "x-forwarded-for") req.headers) [
      | none ↦ socket
      | some [] ↦ socket
      | some (c ∷ cs) ↦ first_value (c ∷ cs)
    ] in
    if config.trust_proxy
    then elim (text_get (codes "fly-client-ip") req.headers) [
      | none ↦ forwarded
      | some [] ↦ forwarded
      | some (c ∷ cs) ↦ c ∷ cs
    ]
    else socket

-- `#isSecure`.
unfoldable pub is_secure : Config → Peer → Request → Bool
is_secure config peer req =
    let proxied : Bool = elim (text_get (codes "x-forwarded-proto") req.headers) [
      | none ↦ false
      | some proto ↦ text_eq (first_value proto) (codes "https")
    ] in
    if peer.encrypted then true else if not config.trust_proxy then false else proxied

-- `#cookieName`.
unfoldable pub cookie_name : Config → Peer → Request → Text
cookie_name config peer req = if is_secure config peer req then codes "__Host-adm" else codes "adm"

-- The answers of `#adminAuth`.
pub data Auth : Type 0 where
  by_cookie by_query refused : Auth

-- `params.get(name)` of a query; an empty query has no parameters.
unfoldable pub param : Platform → Text → Text → Option Text
param platform name [] = none
param platform name (c ∷ cs) = text_get name (platform.search_params (c ∷ cs))

abbrev pub is_get : Request → Bool
is_get req = text_eq req.method (codes "GET")

-- `Boolean(config.adminToken)`.
abbrev pub is_set : Option Text → Bool
is_set none = false
is_set (some []) = false
is_set (some (c ∷ cs)) = true

-- `#adminAuth`.
unfoldable pub admin_auth : Platform → Config → Peer → Request → Auth
admin_auth platform config peer req =
    let jar = parse_cookies (text_get (codes "cookie") req.headers) in
    let cookie = text_get (cookie_name config peer req) jar in
    let given = param platform (codes "token") req.query in
    if not (is_get req)
    then refused
    else if not (is_set config.admin_token)
    then refused
    else if verify_session platform.crypto config.session_key cookie peer.now
    then by_cookie
    else if tokens_match given config.admin_token
    then by_query
    else refused

-- `#noteFailure`; the limiter decides whether a line is logged.
unfoldable pub failure : Config → Peer → Request → Text → Effect
failure config peer req kind = note_failure kind (client_ip config peer req)

-- `#setCookieLine`.
unfoldable pub set_cookie_line : Config → Peer → Request → Text → ℕ → Text
set_cookie_line config peer req value max_age =
    let attrs =
      codes "Max-Age=" ++ decimal max_age ++ codes "; Path=/; HttpOnly; SameSite=Strict" in
    if is_secure config peer req
    then codes "Set-Cookie: __Host-adm=" ++ value ++ codes "; " ++ attrs ++ codes "; Secure"
    else codes "Set-Cookie: adm=" ++ value ++ codes "; " ++ attrs

-- `#cleanUrl`: the URL without the token, every parameter of that name left out.
unfoldable pub without : Text → List (Text × Text) → List (Text × Text)
without name [] = []
without name ((k, v) ∷ rest) =
    let kept = without name rest in if text_eq k name then kept else (k, v) ∷ kept

unfoldable pub clean_url : Platform → Request → Text
clean_url platform req =
    let kept = without (codes "token") (platform.search_params req.query) in
    elim (platform.params_text kept) [
      | [] ↦ req.base_path
      | c ∷ cs ↦ req.base_path ++ (b'?' ∷ c ∷ cs)
    ]

-- `#exchangeForCookie`.
unfoldable pub exchange_for_cookie :
    Platform → Config → Peer → Session → Request → Session × List Effect
exchange_for_cookie platform config peer s req =
    let value = mint_session platform.crypto config.session_key config.session_ttl peer.now in
    let cookie = set_cookie_line config peer req value config.session_ttl in
    finish s (redirect_to (clean_url platform req) (cookie ∷ []))

-- Whether `params.get(name)` is that text.
unfoldable pub param_is : Platform → Text → Text → Text → Bool
param_is platform name value query = elim (param platform name query) [
  | none ↦ false
  | some given ↦ text_eq given value
]

-- A failed attempt: it is noted, and answered with the decoy.
unfoldable pub gated : Config → Peer → Session → Request → Text → Session × List Effect
gated config peer s req kind =
    let (s', ended) = serve_decoy s 200 in (s', failure config peer req kind ∷ ended)

-- `#serveAdminStats`.
unfoldable pub serve_admin_stats :
    Platform → Config → Peer → Session → Request → Session × List Effect
serve_admin_stats platform config peer s req =
    let signed_in : Session × List Effect =
      if param_is platform (codes "logout") (codes "1") req.query
      then finish s (redirect_to req.base_path (set_cookie_line config peer req [] 0 ∷ []))
      else finish s (respond 200 stats_page []) in
    let by_link : Session × List Effect =
      if param_is platform (codes "logout") (codes "1") req.query
      then finish s (redirect_to req.base_path (set_cookie_line config peer req [] 0 ∷ []))
      else exchange_for_cookie platform config peer s req in
    elim (admin_auth platform config peer req) [
      | refused ↦ gated config peer s req (codes "admin")
      | by_query ↦ by_link
      | by_cookie ↦ signed_in
    ]

-- The SSE limits, in bytes.
abbrev pub sse_skip_bytes : ℕ
sse_skip_bytes = 64 * 1024

abbrev pub sse_max_buffered : ℕ
sse_max_buffered = 1024 * 1024

-- `#pushStats`, with `client.writableLength`.
unfoldable pub push_stats : Session → ℕ → Session × List Effect
push_stats s buffered =
    if s.dead
    then (s, [])
    else if ltb sse_max_buffered buffered
    then destroy s
    else if ltb sse_skip_bytes buffered
    then (s, [])
    else (s, sse_snapshot ∷ [])

-- `#serveAdminStream`: `head_ok` is the answer of `sendEventStreamHead`, `buffered` what is buffered
-- at the first snapshot. `sse_start` stands for the keepalive, the retry line and the comment.
unfoldable pub serve_admin_stream :
    Platform → Config → Peer → Session → Request → Bool → ℕ → Session × List Effect
serve_admin_stream platform config peer s req head_ok buffered =
    let streaming = record s { phase = sse_phase } in
    let (failed, ended) = destroy s in
    let (pushed, first) = push_stats streaming buffered in
    let opened : Session × List Effect =
      if head_ok
      then (record pushed { has_timer = true }, sse_head ∷ sse_start ∷ (first ++ start_timer ∷ []))
      else (failed, sse_head ∷ ended) in
    elim (admin_auth platform config peer req) [
      | refused ↦ serve_decoy s 200
      | by_query ↦ opened
      | by_cookie ↦ opened
    ]
