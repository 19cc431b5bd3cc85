-- ===== src/Relay/Tcp.antt =====
-- src/node/relay.js: one TCP target for the life of a tunnel.
-- Effects are in order; log lines and the removal of listeners are left out.
pub mod Order
use better_nodejs_vless_ws.Base.{
  ℕ, zero, suc, ◌+◌, ◌≡◌, refl, ap, sym, ◌∙◌, Bool, true, false, List, [], ◌∷◌, ◌++◌, if◌then◌else◌,
  ◌==◌, length, arith, length-append, append_assoc, append-nil, ◌⊎◌, inl, inr, Bool-cases,
}
use better_nodejs_vless_ws.Base.Text.{Text}
use better_nodejs_vless_ws.WsFrame.Encode.{nil_of_length}
use better_nodejs_vless_ws.Vless.Queue.{ByteQueue, empty_queue, push, flatten, clear}
use better_nodejs_vless_ws.Vless.Queue.Laws.{
  contents, IsValid, contents-push, push-IsValid, flatten-contents, clear-IsValid, contents-clear,
}

pub data RelayEffect : Type 0 where
  start_stream connect : Text → ℕ → RelayEffect
  add_tx add_rx : ℕ → RelayEffect
  target_write send_ws : List ℕ → RelayEffect
  pause_client resume_client pause_source end_stream destroy_target destroy_session : RelayEffect

pub record TcpRelay : Type 0 where
  pub pending_writes : ByteQueue
  pub connected : Bool
  pub closed : Bool

-- The relay before its connection is up, with the bytes that came with the header; the stream is
-- entered in the statistics and the target is dialled.
unfoldable pub create_relay : Text → ℕ → List ℕ → TcpRelay × List RelayEffect
create_relay host port initial = (
  record { pending_writes = push empty_queue initial; connected = false; closed = false },
  start_stream host port ∷ connect host port ∷ [],
)

-- What `target.write` asks for: its answer `false` pauses the client.
abbrev pub pause_unless : Bool → List RelayEffect
pause_unless true = []
pause_unless false = pause_client ∷ []

-- The callback of `net.createConnection`; `writable` is the answer of `target.write`.
unfoldable pub on_connect : TcpRelay → Bool → TcpRelay × List RelayEffect
on_connect relay writable =
    let (buffered, _) = flatten relay.pending_writes in
    if relay.pending_writes.size == 0 then (record relay { connected = true }, []) else (
      record relay { connected = true; pending_writes = clear relay.pending_writes },
      add_tx (length buffered) ∷ target_write buffered ∷ pause_unless writable,
    )

-- `write`.
unfoldable pub write : TcpRelay → List ℕ → Bool → TcpRelay × List RelayEffect
write relay [] writable = (relay, [])
write relay (b ∷ bs) writable =
    if relay.connected
    then (relay, add_tx (length (b ∷ bs)) ∷ target_write (b ∷ bs) ∷ pause_unless writable)
    else (record relay { pending_writes = push relay.pending_writes (b ∷ bs) }, [])

-- The 'data' callback; `sent` is the answer of `sendWs`.
unfoldable pub on_data : Bool → List ℕ → Bool → List RelayEffect
on_data session_dead chunk sent =
    if session_dead
    then []
    else add_rx (length chunk) ∷ send_ws chunk ∷ (if sent then [] else pause_source ∷ [])

-- The 'drain' callback, then those of 'close' and 'error'.
unfoldable pub on_drain : List RelayEffect
on_drain = resume_client ∷ []

unfoldable pub on_end : List RelayEffect
on_end = destroy_session ∷ []

-- `close`.
unfoldable pub close : TcpRelay → TcpRelay × List RelayEffect
close relay = if relay.closed then (relay, []) else (
  record relay { closed = true; pending_writes = clear relay.pending_writes },
  end_stream ∷ destroy_target ∷ [],
)
