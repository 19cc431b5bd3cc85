-- ===== src/Tests/Relay.antt =====
-- Runs of src/node/udp.js and src/node/relay.js.
use better_nodejs_vless_ws.Base.{
  ℕ, ◌≡◌, refl, ◌⊎◌, inr, true, false, List, [], ◌∷◌, ◌++◌, length, arith,
}
use better_nodejs_vless_ws.Base.Text.{codes}
use better_nodejs_vless_ws.Vless.Queue.Laws.{contents, IsValid}
use better_nodejs_vless_ws.Relay.Udp.{
  UdpRelay, write, frame_reply, framed, write_sends, frame_reply_lem,
}
use better_nodejs_vless_ws.Relay.Tcp.{create_relay}
use better_nodejs_vless_ws.Relay.Tcp.Order.{
  Input, client_sends, target_connects, accept_all, payloads, written, counted_tx, accept_all_lem,
}
use better_nodejs_vless_ws.Tests.Data.{sevens, length-sevens, hello}

-- A relay that has the first three bytes of a datagram.
abbrev begun_relay : UdpRelay
begun_relay = record {
  inbound = record { parts = (0 ∷ 5 ∷ 104 ∷ []) ∷ []; size = 3 };
  closed = false;
}

-- The rest of it, and the length of the next.
abbrev more_bytes : List ℕ
more_bytes = 101 ∷ 108 ∷ 108 ∷ 111 ∷ 0 ∷ 9 ∷ []

begun-IsValid : IsValid begun_relay.inbound
unfolding contents
begun-IsValid = record { counted = refl }

begun-contents : contents begun_relay.inbound ++ more_bytes ≡ (framed hello ++ []) ++ 0 ∷ 9 ∷ []
unfolding contents
begun-contents = refl

write_sends_example :
    ((write begun_relay more_bytes).1 ≡ hello ∷ [])
    × (contents (write begun_relay more_bytes).0.inbound ≡ 0 ∷ 9 ∷ [])
    × IsValid (write begun_relay more_bytes).0.inbound
write_sends_example =
    write_sends begun_relay more_bytes (hello ∷ []) (0 ∷ 9 ∷ []) begun-IsValid begun-contents
      (omega arith, tt) (inr (omega arith))

frame_reply_lem_example : frame_reply sevens hello ≡ 0 ∷ 5 ∷ hello
frame_reply_lem_example = frame_reply_lem sevens length-sevens hello (omega arith)

-- A message before the connection is up, one after, with a full socket.
abbrev some_inputs : List Input
some_inputs = client_sends hello true ∷ target_connects true ∷ client_sends (1 ∷ []) false ∷ []

accept_all_lem_example :
    let relay = (create_relay (codes "a.example") 443 (7 ∷ [])).0 in
    let after = accept_all relay some_inputs in
    (written after.1 ++ contents after.0.pending_writes ≡ 7 ∷ payloads some_inputs)
    × (counted_tx after.1 ≡ length (written after.1))
    × ((after.0.connected ≡ false) ⊎ (contents after.0.pending_writes ≡ []))
accept_all_lem_example = accept_all_lem (codes "a.example") 443 (7 ∷ []) some_inputs
