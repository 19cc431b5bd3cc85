-- ===== src/Session.antt =====
-- src/node/session.js: one client connection, from its first bytes to a tunnel.
--
-- A method returns the new session and what it does outside, in order. Log lines, the removal of
-- listeners and the texts of HTML pages are left out: a page is a constructor with what it shows.
-- Relays are components of their own (Relay, Mux), reached through effects. The answers that other
-- components give (rate limits, the burn store, the clock) are arguments. The probed pin, for which an
-- invite may wait, is asked for by an effect and comes back as a call of its own.
pub mod Tunnel
pub mod Admin
pub mod Invite
pub mod Redeem
pub mod Routes
pub mod Streams
pub mod Running
pub mod Opening
pub mod Unread
pub mod Wire
pub mod Refusal
pub mod Ending
pub mod Neutral
pub mod Steps
pub mod Lifetime
pub mod Gate
pub mod Deliveries
pub mod Handed
use better_nodejs_vless_ws.Base.{
  ℕ, zero, suc, ◌+◌, Bool, true, false, ◌&&◌, ◌||◌, not, Option, none, some, List, [], ◌∷◌, ◌++◌,
  map, if◌then◌else◌, ltb, ◌==◌, length,
}
use better_nodejs_vless_ws.Base.Text.{Text, codes}
use better_nodejs_vless_ws.Vless.Queue.{ByteQueue, clear}
use better_nodejs_vless_ws.WsFrame.Opcode
use better_nodejs_vless_ws.Http.{Request}

-- The states `HTTP`, `WS` and `SSE`.
pub data Phase : Type 0 where
  http_phase ws_phase sse_phase : Phase

-- What a generated client configuration is made of.
pub record Profile : Type 0 where
  pub uuid : Text
  pub host : Text
  pub port : ℕ
  pub ws_path : Text
  pub all_udp : Bool
  pub front_sni : Option Text
  pub pinned : Option Text

-- What `registry.mintable` returns.
pub record Account : Type 0 where
  pub label : Text
  pub uuid : Text

-- What `#serveInvite` goes on with when the probed pin is there: the request, the token and the
-- action of its path, the user, and the profile so far.
pub record Awaited : Type 0 where
  pub request : Request
  pub token : Text
  pub action : Text
  pub account : Account
  pub profile : Profile

-- An invite as the operator's page shows it.
pub record Issued : Type 0 where
  pub label : Text
  pub udp : Bool
  pub front : Text
  pub url : Text
  pub exp : ℕ

-- The pages, with what they show.
pub data Page : Type 0 where
  decoy_page stats_page stale_page : Page
  provision_page : Option Issued → Page
  landing_page : Text → Page
  reveal_page : Text → Text → Profile → Bool → Page

pub data Effect : Type 0 where
  respond : ℕ → Page → List Text → Effect
  respond_config : Profile → List Text → Effect
  redirect_to : Text → List Text → Effect
  upgrade : Text → Effect
  sse_head sse_start sse_snapshot start_timer clear_timer : Effect
  note_failure : Text → Text → Effect
  claim_burn : Text → ℕ → ℕ → Effect
  await_pin : Awaited → Effect
  ws_frame : ℕ → List ℕ → Effect
  mux_frame : List ℕ → Bool → List ℕ → Effect
  pause_stream resume_stream : ℕ → Effect
  pause_client resume_client destroy_client : Effect
  open_connection : Text → Effect
  close_connection : Effect
  start_tcp start_udp : Text → ℕ → List ℕ → Effect
  start_mux : List ℕ → Effect
  relay_write : List ℕ → Effect
  relay_close : Effect

-- `has_relay` and `connected` say whether `#relay` and `connInfo` are set; `paused` holds the
-- numbers of streams.
pub record Session : Type 0 where
  pub phase : Phase
  pub dead : Bool
  pub inbound : ByteQueue
  pub message : ByteQueue
  pub has_relay : Bool
  pub vless_started : Bool
  pub has_timer : Bool
  pub paused : List ℕ
  pub connected : Bool

-- `sendWs`, with the answer of the client's `write`; a dead session answers true.
unfoldable pub send_ws : Session → ℕ → List ℕ → Bool → List Effect × Bool
send_ws s opcode payload writable =
    if s.dead then ([], true) else (ws_frame opcode payload ∷ [], writable)

-- `sendMux`; `gone` is `client.destroyed`.
unfoldable pub send_mux : Session → List ℕ → Bool → List ℕ → Bool → Bool → List Effect × Bool
send_mux s meta has_data payload gone writable =
    if s.dead || gone then ([], true) else (mux_frame meta has_data payload ∷ [], writable)

-- Whether a stream is in the set `#paused`.
unfoldable pub is_paused : ℕ → List ℕ → Bool
is_paused n [] = false
is_paused n (p ∷ ps) = p == n || is_paused n ps

-- `pauseSource` of a stream.
unfoldable pub pause_source : Session → ℕ → Session × List Effect
unfolding is_paused
pause_source s n = (
  record s { paused = if is_paused n s.paused then s.paused else s.paused ++ n ∷ [] },
  pause_stream n ∷ [],
)

-- `resumeClient`.
unfoldable pub resume : Session → List Effect
resume s = if s.dead then [] else resume_client ∷ []

-- `#onDrain`.
unfoldable pub on_drain : Session → Session × List Effect
on_drain s =
    if s.dead then (s, []) else (record s { paused = [] }, map (λ n. resume_stream n) s.paused)

abbrev pub timer_effects : Bool → List Effect
timer_effects true = clear_timer ∷ []
timer_effects false = []

abbrev pub relay_effects : Bool → List Effect
relay_effects true = relay_close ∷ []
relay_effects false = []

abbrev pub connection_effects : Bool → List Effect
connection_effects true = close_connection ∷ []
connection_effects false = []

-- `destroy`. `closeConnection` of no connection does nothing.
unfoldable pub destroy : Session → Session × List Effect
destroy s = if s.dead then (s, []) else (
  record s {
    dead = true;
    has_timer = false;
    has_relay = false;
    paused = [];
    inbound = clear s.inbound;
    message = clear s.message;
  },
  timer_effects s.has_timer
      ++ (destroy_client ∷ (relay_effects s.has_relay ++ connection_effects s.connected)),
)

-- A response and the end of the session.
unfoldable pub finish : Session → Effect → Session × List Effect
finish s answer = let (s', ended) = destroy s in (s', answer ∷ ended)

-- `#serveDecoy`.
unfoldable pub serve_decoy : Session → ℕ → Session × List Effect
serve_decoy s status = finish s (respond status decoy_page [])
