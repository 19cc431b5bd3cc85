-- ===== src/Tests/Mux.antt =====
-- Runs of src/node/mux.js.
use better_nodejs_vless_ws.Base.{
  ℕ, ◌≡◌, refl, ◌+◌, true, false, some, List, [], ◌∷◌, ◌++◌, All, length, arith,
}
use better_nodejs_vless_ws.Base.Text.{codes}
use better_nodejs_vless_ws.Base.Assoc.{map_get}
use better_nodejs_vless_ws.Vless.Queue.{ByteQueue, empty_queue}
use better_nodejs_vless_ws.Vless.Queue.Laws.{contents, IsValid}
use better_nodejs_vless_ws.WsFrame.EncodeMux.{mux_bytes}
use better_nodejs_vless_ws.Mux.{Mux, Effect, is_dead, add_rx, pause_source, entry_of, keep_data}
use better_nodejs_vless_ws.Mux.Drain.{frame, look, write, on_connect, on_data, close}
use better_nodejs_vless_ws.Mux.Frames.{look-mux_bytes}
use better_nodejs_vless_ws.Mux.Blocked.{IsAllowed, IsClean, write-IsClean}
use better_nodejs_vless_ws.Mux.Substreams.{counted_tx, written_tx, keep_counted_twice}
use better_nodejs_vless_ws.Mux.Replies.{frame_bytes, IsKeepFrame, on_data_lem}
use better_nodejs_vless_ws.Mux.Closing.{total, is_destroyed, is_recorded, entries, close_lem}
use better_nodejs_vless_ws.Tests.Data.{plain, hello}

-- A New frame for substream 1: TCP, port 443, the address 192.168.0.1.
abbrev new_meta : List ℕ
new_meta = 0 ∷ 1 ∷ 1 ∷ 1 ∷ 1 ∷ 1 ∷ 187 ∷ 1 ∷ 192 ∷ 168 ∷ 0 ∷ 1 ∷ []

abbrev new_frame : List ℕ
new_frame = mux_bytes new_meta true hello

abbrev waiting_queue : ByteQueue
waiting_queue = record { parts = (new_frame ++ hello) ∷ []; size = length (new_frame ++ hello) }

waiting-IsValid : IsValid waiting_queue
unfolding contents
waiting-IsValid = record { counted = refl }

waiting-contents : contents waiting_queue ≡ new_frame ++ hello
unfolding contents
waiting-contents = refl

look-mux_bytes_example :
    (q' : ByteQueue) × (look waiting_queue ≡ frame new_meta (some hello) q')
    × (contents q' ≡ hello)
    × IsValid q'
look-mux_bytes_example =
    look-mux_bytes waiting_queue new_meta true hello hello waiting-IsValid waiting-contents
      (omega arith) (omega arith) (omega arith) refl

abbrev fresh_mux : Mux
fresh_mux = record {
  queue = empty_queue;
  tcp = [];
  udp = [];
  sockets = [];
  next_socket = 0;
  closed = false;
  session_dead = false;
}

abbrev loaded_mux : Mux
loaded_mux = record fresh_mux { queue = waiting_queue }

write-IsClean_example :
    IsClean plain (write plain fresh_mux new_frame).0
    × All (IsAllowed plain) (write plain fresh_mux new_frame).1
write-IsClean_example = write-IsClean plain fresh_mux new_frame tt

on_data_lem_example :
    (is_dead fresh_mux ≡ true → on_data fresh_mux 258 0 hello false ≡ [])
    × (is_dead fresh_mux ≡ false
        → (frames : List Effect) × (on_data fresh_mux 258 0 hello false
            ≡ add_rx 0 (length hello) ∷ (frames ++ pause_source 0 ∷ []))
          × (frame_bytes frames ≡ hello)
          × All (IsKeepFrame 258) frames)
on_data_lem_example = on_data_lem fresh_mux 258 0 hello false

-- Substream 1 on socket 0, whose connection is not up.
abbrev dialling_mux : Mux
dialling_mux = record fresh_mux {
  tcp = (1, 0) ∷ [];
  sockets = (0, record { connected = false; pending = empty_queue }) ∷ [];
  next_socket = 1;
}

dialling_entry : entry_of dialling_mux 0 ≡ record { connected = false; pending = empty_queue }
unfolding entry_of map_get
dialling_entry = refl

dialling_substream : map_get 1 dialling_mux.tcp ≡ some 0
unfolding map_get
dialling_substream = refl

dialling_off : (entry_of dialling_mux 0).connected ≡ false
unfolding entry_of map_get
dialling_off = refl

dialling-IsValid : IsValid (entry_of dialling_mux 0).pending
unfolding entry_of map_get contents
dialling-IsValid = record { counted = refl }

keep_counted_twice_example :
    let kept = keep_data dialling_mux 1 hello in
    let flushed = on_connect kept.0 0 in
    counted_tx kept.1 + counted_tx flushed.1 ≡ written_tx kept.1 + written_tx flushed.1 + 5
keep_counted_twice_example =
    keep_counted_twice dialling_mux 1 0 hello dialling_substream dialling_off dialling-IsValid

-- A datagram substream with the same id, and one of another.
abbrev busy_mux : Mux
busy_mux = record dialling_mux {
  udp =
      (1, record { socket = 1; host = codes "a.example"; port = 53 })
      ∷ (2, record { socket = 2; host = codes "b.example"; port = 53 })
      ∷ [];
  next_socket = 3;
}

close_lem_example :
    (total (is_destroyed 2) (close busy_mux).1 ≡ entries busy_mux 2)
    × (total (is_recorded 2) (close busy_mux).1 ≡ entries busy_mux 2)
    × ((close busy_mux).0.tcp ≡ [])
    × ((close busy_mux).0.udp ≡ [])
    × (contents (close busy_mux).0.queue ≡ [])
    × (close (close busy_mux).0 ≡ ((close busy_mux).0, []))
close_lem_example = close_lem busy_mux 2 refl

entries_example : entries busy_mux 2 ≡ 1
entries_example = refl
