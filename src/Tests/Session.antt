-- ===== src/Tests/Session.antt =====
-- Runs of src/node/session.js.
use better_nodejs_vless_ws.Base.{
  ℕ, ◌≡◌, inl, refl, true, false, none, some, List, [], ◌∷◌, ◌++◌, length, drop, map, All, arith,
  append-nil, ap, sym, ◌∙◌,
}
use better_nodejs_vless_ws.Base.Text.{codes, text_eq, decimal, ends_with}
use better_nodejs_vless_ws.Vless.Address.{
  is_blocked_domain, ipv4_text, to_lower, contains, below_any,
}
use better_nodejs_vless_ws.Vless.Queue.Laws.{contents, IsValid}
use better_nodejs_vless_ws.Vless.Header
use better_nodejs_vless_ws.Vless.Header.{
  single, ok, fail, uuid_mismatch, anon_user, parse_vless_header, lookup_user, match_bytes,
  match_from,
}
use better_nodejs_vless_ws.Vless.Header.RoundTrip.{ipv4, encode_request, parse_vless_header-encode}
use better_nodejs_vless_ws.WsFrame.{decode_frame}
use better_nodejs_vless_ws.Session.{Session, ws_phase}
use better_nodejs_vless_ws.Session.Tunnel.{handle_ws}
use better_nodejs_vless_ws.Session.Streams.{is_message_stream, stream_bytes, opened, tunnelled}
use better_nodejs_vless_ws.Session.Opening.{Waiting}
use better_nodejs_vless_ws.Session.Refusal.{IsRefusal, handle_ws_refuses}
use better_nodejs_vless_ws.Session.Wire.{SentFrame, IsSent, wire, frame_of, handle_ws_tunnels}
use better_nodejs_vless_ws.Tests.Data.{plain, some_uuid, some_key, hello, fresh}

-- A request for TCP to 127.0.0.1, port 80.
abbrev request_bytes : List ℕ
request_bytes = encode_request some_uuid [] 1 80 (ipv4 127 0 0 1)

abbrev some_request : Header.Request
some_request = record {
  cmd = 1;
  host = codes "127.0.0.1";
  port = 80;
  header_end = length request_bytes;
  user = anon_user;
}

-- The header in two fragments with a ping between them, and a message behind it.
abbrev some_frames : List SentFrame
some_frames =
    record { first = 2; key = some_key; payload = 0 ∷ some_uuid }
    ∷ record { first = 137; key = some_key; payload = [] }
    ∷ record {
      first = 128;
      key = some_key;
      payload = 0 ∷ 1 ∷ 0 ∷ 80 ∷ 1 ∷ 127 ∷ 0 ∷ 0 ∷ 1 ∷ 104 ∷ [];
    }
    ∷ record { first = 130; key = some_key; payload = hello }
    ∷ []

-- All the frames have come, and a byte of the next.
abbrev waiting_session : Session
waiting_session = record fresh {
  phase = ws_phase;
  inbound = record {
    parts = (wire some_frames ++ 130 ∷ []) ∷ [];
    size = length (wire some_frames ++ 130 ∷ []);
  };
}

waiting_session-Waiting : Waiting waiting_session []
unfolding contents
waiting_session-Waiting = record {
  alive = refl;
  undecided = refl;
  valid = record { counted = refl };
  held = refl;
}

inbound-contents : contents waiting_session.inbound ≡ wire some_frames ++ 130 ∷ []
unfolding contents
inbound-contents = append-nil (wire some_frames ++ 130 ∷ [])

inbound-IsValid : IsValid waiting_session.inbound
inbound-IsValid = record { counted = ap length (sym inbound-contents) }

some_frames-IsSent : All IsSent some_frames
some_frames-IsSent = (
  record { key_size = refl; payload_size = omega arith },
  (
    record { key_size = refl; payload_size = omega arith },
    (
      record { key_size = refl; payload_size = omega arith },
      (record { key_size = refl; payload_size = omega arith }, tt),
    ),
  ),
)

a_byte_is_none : decode_frame (130 ∷ []) ≡ none
unfolding decode_frame
a_byte_is_none = refl

frames_are_whole : is_message_stream false (map frame_of some_frames) ≡ true
frames_are_whole = refl

found_user : lookup_user (single some_uuid) (request_bytes ++ 104 ∷ hello) ≡ some anon_user
unfolding lookup_user match_bytes match_from
found_user = refl

bytes_accepted :
    parse_vless_header plain (single some_uuid) (stream_bytes (map frame_of some_frames))
    ≡ ok some_request
unfolding is_blocked_domain ipv4_text decimal contains text_eq to_lower below_any ends_with
bytes_accepted =
    parse_vless_header-encode plain (single some_uuid) some_uuid [] (104 ∷ hello) 1 80
      (ipv4 127 0 0 1) anon_user refl tt (inl refl) found_user

handle_ws_tunnels_example :
    (opened (handle_ws plain (single some_uuid) waiting_session).1 ≡ some_request.user.label ∷ [])
    × (tunnelled (handle_ws plain (single some_uuid) waiting_session).1
        ≡ drop some_request.header_end (stream_bytes (map frame_of some_frames)))
handle_ws_tunnels_example =
    handle_ws_tunnels plain (single some_uuid) waiting_session some_frames (130 ∷ []) some_request
      tt waiting_session-Waiting inbound-IsValid inbound-contents some_frames-IsSent a_byte_is_none
      frames_are_whole bytes_accepted

-- A client with a credential of zeros.
abbrev stranger_frames : List SentFrame
stranger_frames =
    record { first = 2; key = some_key; payload = 0 ∷ 0 ∷ 0 ∷ 0 ∷ 0 ∷ 0 ∷ 0 ∷ 0 ∷ [] }
    ∷ record {
      first = 128;
      key = some_key;
      payload = 0 ∷ 0 ∷ 0 ∷ 0 ∷ 0 ∷ 0 ∷ 0 ∷ 0 ∷ 0 ∷ 0 ∷ 0 ∷ [];
    }
    ∷ []

abbrev stranger_session : Session
stranger_session = record fresh {
  phase = ws_phase;
  inbound = record { parts = wire stranger_frames ∷ []; size = length (wire stranger_frames) };
}

stranger_session-Waiting : Waiting stranger_session []
unfolding contents
stranger_session-Waiting = record {
  alive = refl;
  undecided = refl;
  valid = record { counted = refl };
  held = refl;
}

stranger-contents : contents stranger_session.inbound ≡ wire stranger_frames ++ []
unfolding contents
stranger-contents = refl

stranger-IsValid : IsValid stranger_session.inbound
stranger-IsValid = record {
  counted = ap length (sym (stranger-contents ∙ append-nil (wire stranger_frames)));
}

stranger_frames-IsSent : All IsSent stranger_frames
stranger_frames-IsSent = (
  record { key_size = refl; payload_size = omega arith },
  (record { key_size = refl; payload_size = omega arith }, tt),
)

nothing_is_none : decode_frame [] ≡ none
unfolding decode_frame
nothing_is_none = refl

stranger_refused :
    parse_vless_header plain (single some_uuid) (stream_bytes (map frame_of stranger_frames))
    ≡ fail uuid_mismatch
unfolding parse_vless_header lookup_user match_bytes match_from
stranger_refused = refl

handle_ws_refuses_example : IsRefusal (handle_ws plain (single some_uuid) stranger_session).1
handle_ws_refuses_example =
    handle_ws_refuses plain (single some_uuid) stranger_session stranger_frames [] uuid_mismatch tt
      stranger_session-Waiting stranger-IsValid stranger-contents stranger_frames-IsSent
      nothing_is_none refl stranger_refused
