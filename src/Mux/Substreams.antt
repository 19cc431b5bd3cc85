-- ===== src/Mux/Substreams.antt =====
-- src/node/mux.js: what is counted of the data of a TCP substream.
use better_nodejs_vless_ws.Base.{
  ℕ, ◌+◌, ◌≡◌, refl, ap, ◌∙◌, false, some, List, [], ◌∷◌, arith, length, ==_refl,
}
use better_nodejs_vless_ws.Base.Assoc.{map_get, map_set, map_get-map_set}
use better_nodejs_vless_ws.Vless.Queue.{ByteQueue, push}
use better_nodejs_vless_ws.Vless.Queue.Laws.{IsValid, push-IsValid, flatten-contents}
use better_nodejs_vless_ws.Mux.{Mux, Effect, TcpEntry, add_tx, tcp_write, entry_of, keep_data}
use better_nodejs_vless_ws.Mux.Drain.{on_connect}

-- The bytes counted as sent, and the bytes written to the target, over some effects.
abbrev pub counted_tx : List Effect → ℕ
counted_tx [] = 0
counted_tx (add_tx socket n ∷ es) = n + counted_tx es
counted_tx (e ∷ es) = counted_tx es

abbrev pub written_tx : List Effect → ℕ
written_tx [] = 0
written_tx (tcp_write socket bytes ∷ es) = length bytes + written_tx es
written_tx (e ∷ es) = written_tx es

-- The entry after data was queued for a connection that is not up.
entry_of-map_set :
    (m m' : Mux) (socket : ℕ) (e : TcpEntry)
    → m'.sockets ≡ map_set socket e m.sockets
    → entry_of m' socket ≡ e
unfolding entry_of
entry_of-map_set m m' socket e h =
    let got : map_get socket m'.sockets ≡ some e =
      ap (map_get socket) h ∙ rw (map_get-map_set socket socket e m.sockets, ==_refl socket) refl in
    rw (got, entry_of) refl

on_connect_tx :
    (m : Mux) (socket : ℕ)
    → IsValid (entry_of m socket).pending
    → (counted_tx (on_connect m socket).1 ≡ (entry_of m socket).pending.size)
      × (written_tx (on_connect m socket).1 ≡ (entry_of m socket).pending.size)
unfolding on_connect
on_connect_tx m socket v =
    let q : ByteQueue = (entry_of m socket).pending in
    ground (arith, (flatten-contents q v).0, v.counted, ap length (flatten-contents q v).0)

-- What Keep data does to a substream whose connection is not up.
keep_data-waiting :
    (m : Mux) (id socket : ℕ) (bytes : List ℕ)
    → map_get id m.tcp ≡ some socket
    → (entry_of m socket).connected ≡ false
    → (entry_of (keep_data m id bytes).0 socket
        ≡ record (entry_of m socket) { pending = push (entry_of m socket).pending bytes })
      × ((keep_data m id bytes).1 ≡ add_tx socket (length bytes) ∷ [])
unfolding keep_data
keep_data-waiting m id socket bytes e off =
    rw (e, keep_data) (rw off (entry_of-map_set m _ socket _ refl, refl))

-- Data that a client sends on a TCP substream before its connection is up is counted twice: over the
-- Keep frame and the connection together, the bytes counted exceed the bytes written to the target
-- by the size of that data. The size of the queue of that substream is the number of its bytes.
pub keep_counted_twice :
    (m : Mux) (id socket : ℕ) (bytes : List ℕ)
    → map_get id m.tcp ≡ some socket
    → (entry_of m socket).connected ≡ false
    → IsValid (entry_of m socket).pending
    → let kept = keep_data m id bytes in
      let flushed = on_connect kept.0 socket in
      counted_tx kept.1 + counted_tx flushed.1
      ≡ written_tx kept.1 + written_tx flushed.1 + length bytes
keep_counted_twice m id socket bytes e off v =
    let (entry, effects) = keep_data-waiting m id socket bytes e off in
    let q : ByteQueue = (entry_of m socket).pending in
    let valid : IsValid (entry_of (keep_data m id bytes).0 socket).pending =
      rw entry (push-IsValid q bytes v) in
    let (counted, written) = on_connect_tx (keep_data m id bytes).0 socket valid in
    omega (arith, counted, written, ap counted_tx effects, ap written_tx effects)
