-- ===== src/Mux.antt =====
-- src/node/mux.js: many substreams on one WebSocket, each with its id of 16 bits.
--
-- A call returns the new session and what it does outside, in order. Log lines are left out.
-- `Mux.sockets` is the heap of the TCP substreams' `entry` objects, by the number that stands for
-- the object: the callbacks of a socket hold on to its entry after the table lets go of it.
pub mod Meta
pub mod Drain
pub mod Frames
pub mod Rounds
pub mod Blocked
pub mod Substreams
pub mod Replies
pub mod Closing
pub mod Reply
use better_nodejs_vless_ws.Base.{
  ℕ, zero, suc, ◌+◌, ◌*◌, ◌≤◌, ◌<◌, Bool, true, false, ◌&&◌, ◌||◌, not, Option, none, some, List,
  [], ◌∷◌, ◌++◌, if◌then◌else◌, ltb, ◌==◌, length, take, drop, get_or,
}
use better_nodejs_vless_ws.Base.Bytes.{byte, word}
use better_nodejs_vless_ws.Base.Text.{Text}
use better_nodejs_vless_ws.Base.Assoc.{map_get, map_set, map_delete}
use better_nodejs_vless_ws.Vless.Address.{Unicode, parse_mux_address, is_blocked_domain}
use better_nodejs_vless_ws.Vless.Queue.{
  ByteQueue, push, at, slice, consume, flatten, clear, empty_queue,
}
use Meta.{meta_keep, meta_end}

pub data Proto : Type 0 where
  tcp_proto udp_proto : Proto

-- What a session does outside itself. The first number is the socket's, and that of its record in
-- the statistics.
pub data Effect : Type 0 where
  start_stream : ℕ → Proto → Text → ℕ → Effect
  end_stream_record : ℕ → Effect
  retarget_record : ℕ → Text → ℕ → Effect
  add_tx add_rx : ℕ → ℕ → Effect
  connect : ℕ → Text → ℕ → Effect
  open_udp_socket : ℕ → Effect
  tcp_write : ℕ → List ℕ → Effect
  udp_send : ℕ → Text → ℕ → List ℕ → Effect
  destroy_socket pause_source : ℕ → Effect
  send_mux : List ℕ → Bool → List ℕ → Effect

pub record TcpEntry : Type 0 where
  pub connected : Bool
  pub pending : ByteQueue

pub record UdpEntry : Type 0 where
  pub socket : ℕ
  pub host : Text
  pub port : ℕ

pub record Mux : Type 0 where
  pub queue : ByteQueue
  pub tcp : List (ℕ × ℕ)
  pub udp : List (ℕ × UdpEntry)
  pub sockets : List (ℕ × TcpEntry)
  pub next_socket : ℕ
  pub closed : Bool
  pub session_dead : Bool

abbrev pub is_dead : Mux → Bool
is_dead m = m.session_dead || m.closed

abbrev pub fresh_tcp : TcpEntry
fresh_tcp = record { connected = false; pending = empty_queue }

-- The entry object of a TCP substream; every number handed out has one.
unfoldable pub entry_of : Mux → ℕ → TcpEntry
entry_of m socket = elim (map_get socket m.sockets) [ none ↦ fresh_tcp | some e ↦ e ]

-- `#openTcp`.
unfoldable pub open_tcp : Mux → ℕ → Text → ℕ → Option (List ℕ) → Mux × List Effect
open_tcp m id host port initial =
    let socket = m.next_socket in
    let pending : ByteQueue = elim initial [
      | none ↦ empty_queue
      | some bytes ↦ push empty_queue bytes
    ] in
    (
      record m {
        tcp = map_set id socket m.tcp;
        sockets = map_set socket (record { connected = false; pending = pending }) m.sockets;
        next_socket = socket + 1;
      },
      start_stream socket tcp_proto host port ∷ connect socket host port ∷ [],
    )

-- `#openUdp`: the entry that it returns comes last.
unfoldable pub open_udp : Mux → ℕ → Text → ℕ → Mux × List Effect × UdpEntry
open_udp m id host port =
    let socket = m.next_socket in
    let entry : UdpEntry = record { socket = socket; host = host; port = port } in
    (
      record m { udp = map_set id entry m.udp; next_socket = socket + 1 },
      start_stream socket udp_proto host port ∷ open_udp_socket socket ∷ [],
      entry,
    )

-- `#sendUdp`.
unfoldable pub send_udp : UdpEntry → List ℕ → List Effect
send_udp entry bytes =
    add_tx entry.socket (length bytes) ∷ udp_send entry.socket entry.host entry.port bytes ∷ []

-- `#sendEnd`.
unfoldable pub send_end : ℕ → List Effect
send_end id = send_mux (meta_end id) false [] ∷ []

pub record MuxTarget : Type 0 where
  pub network : ℕ
  pub port : ℕ
  pub host : Text

-- `#readTarget`.
unfoldable pub read_target : Unicode → List ℕ → Option MuxTarget
read_target unicode meta =
    if ltb (length meta) 8 then none else elim (parse_mux_address unicode meta 7) [
      | none ↦ none
      | some address ↦
          some (record { network = byte meta 4; port = word meta 5; host = address.host })
    ]

-- The session after a handler, what it did, and whether parsing goes on.
abbrev pub Handled : Type 0
Handled = Mux × List Effect × Bool

-- `#onNew` once the target is read.
unfoldable pub new_target : Unicode → Mux → ℕ → MuxTarget → Option (List ℕ) → Handled
new_target unicode m id target bytes =
    let (udp_mux, opened, entry) = open_udp m id target.host target.port in
    let sent : List Effect = elim bytes [
      | none ↦ []
      | some b ↦ if ltb 0 (length b) then send_udp entry b else []
    ] in
    let (tcp_mux, dialled) = open_tcp m id target.host target.port bytes in
    if is_blocked_domain unicode target.host
    then (m, send_end id, true)
    else if target.network == 1
    then (tcp_mux, dialled, true)
    else if target.network == 2
    then (udp_mux, opened ++ sent, true)
    else (m, [], true)

-- `#onNew`; `none` is a frame with no data section.
unfoldable pub on_new : Unicode → Mux → ℕ → List ℕ → Option (List ℕ) → Handled
on_new unicode m id meta bytes = elim (read_target unicode meta) [
  | none ↦ (m, [], false)
  | some target ↦ new_target unicode m id target bytes
]

-- The retargeting of `#onKeep`, once the target is read and allowed.
unfoldable pub retarget : Mux → ℕ → MuxTarget → Mux × List Effect
retarget m id target = elim (map_get id m.udp) [
  | none ↦ let (m', opened, _) = open_udp m id target.host target.port in (m', opened)
  | some entry ↦ (
    record m { udp = map_set id (record entry { host = target.host; port = target.port }) m.udp },
    retarget_record entry.socket target.host target.port ∷ [],
  )
]

-- The end of `#onKeep`: the data goes to the TCP substream of that id, else to the UDP one.
unfoldable pub keep_data : Mux → ℕ → List ℕ → Mux × List Effect
keep_data m id bytes = elim (map_get id m.tcp) [
  | some socket ↦
      let entry = entry_of m socket in
      let queued = record entry { pending = push entry.pending bytes } in
      if entry.connected then (m, add_tx socket (length bytes) ∷ tcp_write socket bytes ∷ []) else (
        record m { sockets = map_set socket queued m.sockets },
        add_tx socket (length bytes) ∷ [],
      )
  | none ↦ elim (map_get id m.udp) [ none ↦ (m, []) | some entry ↦ (m, send_udp entry bytes) ]
]

unfoldable pub keep_rest : Mux → ℕ → Option (List ℕ) → Mux × List Effect
keep_rest m id none = (m, [])
keep_rest m id (some []) = (m, [])
keep_rest m id (some (b ∷ bs)) = keep_data m id (b ∷ bs)

-- `#onKeep`.
unfoldable pub on_keep : Unicode → Mux → ℕ → List ℕ → Option (List ℕ) → Handled
on_keep unicode m id meta bytes =
    if ltb 4 (length meta) && byte meta 4 == 2
    then elim (read_target unicode meta) [
      | none ↦ (m, [], false)
      | some target ↦
          let (m', opened) = retarget m id target in
          let (m'', sent) = keep_rest m' id bytes in
          if is_blocked_domain unicode target.host
          then (m, send_end id, true)
          else (m'', opened ++ sent, true)
    ]
    else let (m', sent) = keep_rest m id bytes in (m', sent, true)

-- The TCP half of `endStream`.
unfoldable pub end_tcp : Mux → ℕ → Mux × List Effect
end_tcp m id = elim (map_get id m.tcp) [
  | none ↦ (m, [])
  | some socket ↦
      let entry = entry_of m socket in
      (
        record m {
          tcp = map_delete id m.tcp;
          sockets = map_set socket (record entry { pending = clear entry.pending }) m.sockets;
        },
        end_stream_record socket ∷ destroy_socket socket ∷ [],
      )
]

unfoldable pub end_udp : Mux → ℕ → Mux × List Effect
end_udp m id = elim (map_get id m.udp) [
  | none ↦ (m, [])
  | some entry ↦ (
    record m { udp = map_delete id m.udp },
    end_stream_record entry.socket ∷ destroy_socket entry.socket ∷ [],
  )
]

-- `endStream`.
unfoldable pub end_stream : Mux → ℕ → Mux × List Effect
end_stream m id =
    let (m', ended) = end_tcp m id in let (m'', ended') = end_udp m' id in (m'', ended ++ ended')
