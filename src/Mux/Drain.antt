-- ===== src/Mux/Drain.antt =====
-- src/node/mux.js: `drain`, `write`, the callbacks of a TCP substream and `close`.
use better_nodejs_vless_ws.Base.{
  ℕ, zero, suc, ◌+◌, ◌*◌, Bool, true, ◌||◌, Option, none, some, List, [], ◌∷◌, ◌++◌, if◌then◌else◌,
  ltb, ◌==◌, ◌%◌, length, map, take, drop,
}
use better_nodejs_vless_ws.Base.Bytes.{byte, word}
use better_nodejs_vless_ws.Base.Assoc.{map_set}
use better_nodejs_vless_ws.Vless.Address.{Unicode}
use better_nodejs_vless_ws.Vless.Queue.{ByteQueue, push, at, slice, consume, flatten, clear}
use better_nodejs_vless_ws.Mux.{
  Mux, Effect, Handled, is_dead, entry_of, on_new, on_keep, end_stream, send_end, add_tx, add_rx,
  tcp_write, send_mux, pause_source,
}
use better_nodejs_vless_ws.Mux.Meta.{meta_keep}

-- One look at the queue: wait for more bytes, drop a byte that cannot begin a frame, or take a
-- frame off (its meta block, its data if it has a data section, and the queue behind it).
pub data Look : Type 0 where
  waiting : Look
  malformed : ByteQueue → Look
  frame : List ℕ → Option (List ℕ) → ByteQueue → Look

-- `q.at(i)` where the size was checked.
abbrev pub peek : ByteQueue → ℕ → ℕ
peek q i = elim (at q i) [ none ↦ 0 | some b ↦ b ]

-- `(q.at(i) << 8) | q.at(i + 1)`.
abbrev pub peek_word : ByteQueue → ℕ → ℕ
peek_word q i = peek q i * 256 + peek q (i + 1)

unfoldable pub look : ByteQueue → Look
look q =
    let meta_len = peek_word q 0 in
    let data_len = peek_word q (2 + meta_len) in
    let meta = slice q 2 (2 + meta_len) in
    let bytes = slice q (4 + meta_len) (4 + meta_len + data_len) in
    let has_data = peek q 5 % 2 == 1 in
    if ltb q.size 4
    then waiting
    else if ltb meta_len 4 || ltb 65535 meta_len
    then malformed (consume q 1)
    else if ltb q.size (2 + meta_len)
    then waiting
    else if has_data
    then if ltb q.size (2 + meta_len + 2)
      then waiting
      else if ltb q.size (2 + meta_len + 2 + data_len)
      then waiting
      else frame meta (some bytes) (consume q (2 + meta_len + (2 + data_len)))
    else frame meta none (consume q (2 + meta_len + 0))

-- The dispatch on the command of a frame.
unfoldable pub dispatch : Unicode → Mux → List ℕ → Option (List ℕ) → Handled
dispatch unicode m meta bytes =
    let id = word meta 0 in
    let cmd = byte meta 2 in
    let (ended, effects) = end_stream m id in
    if cmd == 1
    then on_new unicode m id meta bytes
    else if cmd == 2
    then on_keep unicode m id meta bytes
    else if cmd == 3
    then (ended, effects, true)
    else (m, [], true)

-- The loop of `drain`, with at most `fuel` rounds.
unfoldable pub drain_loop : Unicode → ℕ → Mux → Mux × List Effect
drain_loop unicode zero m = (m, [])
drain_loop unicode (suc fuel) m = elim (look m.queue) [
  | waiting ↦ (m, [])
  | malformed rest ↦ (record m { queue = rest }, [])
  | frame meta bytes rest ↦
      let (m', effects, go_on) = dispatch unicode (record m { queue = rest }) meta bytes in
      let (m'', later) = drain_loop unicode fuel m' in
      if go_on then (m'', effects ++ later) else (m', effects)
]

-- Each round takes bytes off the queue, so one round for each byte and one more are enough.
unfoldable pub drain : Unicode → Mux → Mux × List Effect
drain unicode m = drain_loop unicode (suc m.queue.size) m

-- `write`.
unfoldable pub write : Unicode → Mux → List ℕ → Mux × List Effect
write unicode m payload = drain unicode (record m { queue = push m.queue payload })

-- The callback of `net.createConnection`.
unfoldable pub on_connect : Mux → ℕ → Mux × List Effect
on_connect m socket =
    let entry = entry_of m socket in
    let (buffered, _) = flatten entry.pending in
    let open_entry = record entry { connected = true } in
    let emptied = record open_entry { pending = clear entry.pending } in
    if entry.pending.size == 0
    then (record m { sockets = map_set socket open_entry m.sockets }, [])
    else (
      record m { sockets = map_set socket emptied m.sockets },
      add_tx socket (length buffered) ∷ tcp_write socket buffered ∷ [],
    )

-- The chunks of `#sendKeep`, at most `fuel` of them.
unfoldable pub chunks : ℕ → List ℕ → List (List ℕ)
chunks zero bytes = []
chunks (suc fuel) [] = []
chunks (suc fuel) (b ∷ bs) = take 65535 (b ∷ bs) ∷ chunks fuel (drop 65535 (b ∷ bs))

-- `#sendKeep`: one Keep frame for each chunk. Every chunk has a byte at least.
unfoldable pub send_keep : ℕ → List ℕ → List Effect
send_keep id bytes = map (λ c. send_mux (meta_keep id) true c) (chunks (length bytes) bytes)

-- The 'data' callback of the substream's socket; `writable` is the answer of `#sendKeep`.
unfoldable pub on_data : Mux → ℕ → ℕ → List ℕ → Bool → List Effect
on_data m id socket reply writable =
    if is_dead m
    then []
    else add_rx socket (length reply)
      ∷ (send_keep id reply ++ (if writable then [] else pause_source socket ∷ []))

-- The 'close' callback.
unfoldable pub on_close : Mux → ℕ → Mux × List Effect
on_close m id =
    let (m', ended) = end_stream m id in if is_dead m then (m, []) else (m', send_end id ++ ended)

-- The 'error' callbacks of both kinds of substream.
unfoldable pub on_error : Mux → ℕ → Mux × List Effect
on_error m id =
    let (m', ended) = end_stream m id in (m', (if is_dead m then [] else send_end id) ++ ended)

-- The loops of `close` over the keys of a table.
unfoldable pub end_streams : Mux → List ℕ → Mux × List Effect
end_streams m [] = (m, [])
end_streams m (id ∷ ids) =
    let (m', ended) = end_stream m id in
    let (m'', later) = end_streams m' ids in (m'', ended ++ later)

-- `close`.
unfoldable pub close : Mux → Mux × List Effect
close m =
    let shut = record m { closed = true } in
    let (m', ended) = end_streams shut (map (λ e. e.0) shut.tcp) in
    let (m'', ended') = end_streams m' (map (λ e. e.0) m'.udp) in
    if m.closed then (m, []) else (record m'' { queue = clear m''.queue }, ended ++ ended')
