-- ===== src/Tests/Routes.antt =====
-- Runs of the routes of src/node/session.js.
use better_nodejs_vless_ws.Base.{
  ◌+◌, ◌≤◌, ◌≡◌, ◌⊎◌, refl, true, false, ◌&&◌, Option, none, some, List, [], ◌∷◌, ◌++◌,
}
use better_nodejs_vless_ws.Base.Text.{Text, codes, text_eq, decimal}
use better_nodejs_vless_ws.Base.Strings.{includes, index_of, last_index_of, text_get, split_on}
use better_nodejs_vless_ws.Users.Labels.{all_label_rest, is_valid_label}
use better_nodejs_vless_ws.Vless.Header.{single}
use better_nodejs_vless_ws.Http.{Request, parse_cookies}
use better_nodejs_vless_ws.Tokens.{
  forged, mint_invite, verify_invite, verify_session, split_mac, tokens_match, constant_time_equal,
  cut_at, sign, invite_fields, judge,
}
use better_nodejs_vless_ws.Session.{Session, Awaited, destroy, serve_decoy}
use better_nodejs_vless_ws.Session.Admin.{Platform, Config, refused, admin_auth, param, param_is}
use better_nodejs_vless_ws.Session.Invite.{Deps, front_mode, public_host, wants_udp}
use better_nodejs_vless_ws.Session.Redeem.{
  serve_invite, split_invite, profile_of, is_allowed, deliver, deliver_or_await, redeem,
  serve_stale, serve_valid, fronting,
}
use better_nodejs_vless_ws.Session.Routes.{Env, is_upgrading, route}
use better_nodejs_vless_ws.Session.Gate.{seen, route-IsDecoy}
use better_nodejs_vless_ws.Session.Deliveries.{handed, awaited}
use better_nodejs_vless_ws.Session.Handed.{whole, IsEarned, serve_invite_hands}
use better_nodejs_vless_ws.Session.Ending.{opens, closes, live}
use better_nodejs_vless_ws.Session.Lifetime.{
  Event, received, closed, drained, ticked, pinned, happen_all, happen_all_counts,
}
use better_nodejs_vless_ws.Tests.Data.{plain, some_uuid, same_macs, fresh, read_decimal}

-- A platform that reads one thing out of a query.
abbrev some_platform : Platform
some_platform = record {
  crypto = same_macs;
  unicode = plain;
  search_params = λ query. (codes "front", codes "pin") ∷ [];
  params_text = λ params. [];
}

abbrev some_config : Config
some_config = record {
  max_header_bytes = 16384;
  provisioning = true;
  trust_proxy = true;
  ws_path = codes "/ws";
  invite_path = codes "/i/";
  admin_token = some (codes "secret");
  session_key = 1 ∷ 2 ∷ [];
  session_ttl = 3600;
  invite_key = 3 ∷ 4 ∷ [];
  invite_ttl = 900;
  public_host = codes "example.org";
  public_port = 443;
  front_sni = codes "cdn.example";
}

-- One user, and a store that has burnt nothing.
abbrev some_deps : Deps
some_deps = record {
  limits = none;
  mintable =
      λ label. some (record { label = label; uuid = codes "00000000-0000-4000-8000-000000000000" });
  claim = λ nonce exp grace. true;
  front_pin = true;
}

abbrev some_env : Env
some_env = record {
  platform = some_platform;
  config = some_config;
  deps = some_deps;
  peer = record { encrypted = false; remote_address = codes "10.0.0.1"; now = 1200 };
  auth = single some_uuid;
  nonce = codes "n0nce";
  head_ok = true;
  buffered = 0;
}

abbrev request_for : Text → Request
request_for path = record {
  method = codes "GET";
  path = path;
  base_path = path;
  query = [];
  headers = [];
}

-- A guess at an invite.
abbrev guess : Request
guess = request_for (codes "/i/1.9999.ann.n0nce.guess")

guess-refused : admin_auth some_platform some_config some_env.peer guess ≡ refused
unfolding admin_auth verify_session split_mac tokens_match param text_get text_eq parse_cookies
    constant_time_equal
guess-refused = refl

guess-forged :
    verify_invite same_macs some_config.invite_key (some (split_invite some_config guess).0) 1200
    ≡ forged
unfolding verify_invite split_mac split_invite index_of cut_at last_index_of constant_time_equal
    text_eq sign
guess-forged = refl

guess-plain : is_upgrading some_platform guess && includes guess.path some_config.ws_path ≡ false
unfolding is_upgrading text_get
guess-plain = refl

route-IsDecoy_example :
    ((route some_env fresh guess).0 ≡ (serve_decoy fresh 200).0)
    × (seen (route some_env fresh guess).1 ≡ seen (serve_decoy fresh 200).1)
route-IsDecoy_example = route-IsDecoy some_env fresh guess guess-refused guess-forged guess-plain

-- An invite that was minted, and the file that it is for, with the probed pin.
abbrev redeemed_path : Text
redeemed_path =
    codes "/i/"
    ++ (mint_invite same_macs some_config.invite_key (codes "ann") 900 (codes "n0nce") 1000).token
    ++ codes "/conf.json"

abbrev redeemed : Request
redeemed = record (request_for redeemed_path) { query = codes "front=pin" }

abbrev some_pin : Option Text
some_pin = some (codes "5f70bf18")

-- The client has gone when the pin is there.
abbrev gone : Session
gone = (destroy fresh).0

serve_invite_hands_example :
    (handed (
        whole some_platform some_config some_deps some_env.peer fresh redeemed gone some_pin
          (serve_invite some_platform some_config some_deps some_env.peer fresh redeemed))
      ≡ [])
    ⊎ IsEarned some_platform some_config some_deps some_env.peer fresh redeemed gone some_pin
        (serve_invite some_platform some_config some_deps some_env.peer fresh redeemed)
serve_invite_hands_example =
    serve_invite_hands some_platform some_config some_deps some_env.peer fresh redeemed gone
      some_pin

-- The invite waits for the pin.
abbrev waits_for : List Awaited → List Text
waits_for [] = []
waits_for (a ∷ waits) = a.account.label ∷ waits_for waits

waits_example :
    waits_for
      (awaited (serve_invite some_platform some_config some_deps some_env.peer fresh redeemed).1)
    ≡ codes "ann" ∷ []
unfolding serve_invite text_eq split_invite index_of mint_invite sign verify_invite split_mac cut_at
    last_index_of constant_time_equal text_get param profile_of is_allowed deliver deliver_or_await
    redeem serve_stale serve_valid fronting decimal invite_fields judge split_on read_decimal
    param_is front_mode public_host wants_udp all_label_rest is_valid_label
waits_example = refl

abbrev some_wait : Awaited
some_wait = record {
  request = redeemed;
  token = [];
  action = codes "/show";
  account = record { label = codes "ann"; uuid = [] };
  profile =
      profile_of some_platform some_config redeemed (record { label = codes "ann"; uuid = [] })
        (codes "example.org");
}

-- A request, a tick, an answer of the probe, and the client ends.
abbrev some_events : List Event
some_events =
    received some_env (codes "GET / HTTP/1.1")
    ∷ received some_env (13 ∷ 10 ∷ 13 ∷ 10 ∷ [])
    ∷ ticked 0
    ∷ drained
    ∷ pinned some_platform some_config some_wait some_pin
    ∷ closed
    ∷ []

happen_all_counts_example :
    (opens (happen_all fresh some_events).1 ≤ 1)
    × (closes (happen_all fresh some_events).1 + live (happen_all fresh some_events).0
        ≡ opens (happen_all fresh some_events).1)
happen_all_counts_example = happen_all_counts fresh some_events refl refl
