-- ===== src/Relay/Tcp/Order.antt =====
-- src/node/relay.js: what reaches the target, in which order, and what is counted.
use better_nodejs_vless_ws.Base.{
  ℕ, ◌+◌, ◌≡◌, refl, ap, sym, ◌∙◌, Bool, true, false, List, [], ◌∷◌, ◌++◌, ◌==◌, length, arith,
  length-append, append_assoc, append-nil, ◌⊎◌, inl, inr, Bool-cases,
}
use better_nodejs_vless_ws.Base.Text.{Text}
use better_nodejs_vless_ws.WsFrame.Encode.{nil_of_length}
use better_nodejs_vless_ws.Vless.Queue.{ByteQueue, empty_queue, push, flatten, clear}
use better_nodejs_vless_ws.Vless.Queue.Laws.{
  contents, IsValid, contents-push, push-IsValid, flatten-contents, clear-IsValid, contents-clear,
}
use better_nodejs_vless_ws.Relay.Tcp.{
  TcpRelay, RelayEffect, start_stream, connect, add_tx, add_rx, target_write, send_ws, pause_client,
  resume_client, pause_source, end_stream, destroy_target, destroy_session, create_relay,
  pause_unless, on_connect, write,
}

-- What happens to a relay that is not closed, each with the answer of `target.write`.
pub data Input : Type 0 where
  client_sends : List ℕ → Bool → Input
  target_connects : Bool → Input

abbrev pub accept : TcpRelay → Input → TcpRelay × List RelayEffect
accept relay (client_sends payload writable) = write relay payload writable
accept relay (target_connects writable) = on_connect relay writable

unfoldable pub accept_all : TcpRelay → List Input → TcpRelay × List RelayEffect
accept_all relay [] = (relay, [])
accept_all relay (i ∷ is) =
    let (relay', now) = accept relay i in
    let (relay'', later) = accept_all relay' is in (relay'', now ++ later)

abbrev pub payloads : List Input → List ℕ
payloads [] = []
payloads (client_sends payload writable ∷ is) = payload ++ payloads is
payloads (target_connects writable ∷ is) = payloads is

-- The bytes written to the target, and the bytes counted as sent.
abbrev pub written : List RelayEffect → List ℕ
written [] = []
written (target_write bytes ∷ es) = bytes ++ written es
written (e ∷ es) = written es

abbrev pub counted_tx : List RelayEffect → ℕ
counted_tx [] = 0
counted_tx (add_tx n ∷ es) = n + counted_tx es
counted_tx (e ∷ es) = counted_tx es

written-append : (xs ys : List RelayEffect) → written (xs ++ ys) ≡ written xs ++ written ys
written-append [] ys = refl
written-append (target_write bytes ∷ xs) ys = rw (written-append xs ys, append_assoc) refl
written-append (start_stream host port ∷ xs) ys = written-append xs ys
written-append (connect host port ∷ xs) ys = written-append xs ys
written-append (add_tx n ∷ xs) ys = written-append xs ys
written-append (add_rx n ∷ xs) ys = written-append xs ys
written-append (send_ws bytes ∷ xs) ys = written-append xs ys
written-append (pause_client ∷ xs) ys = written-append xs ys
written-append (resume_client ∷ xs) ys = written-append xs ys
written-append (pause_source ∷ xs) ys = written-append xs ys
written-append (end_stream ∷ xs) ys = written-append xs ys
written-append (destroy_target ∷ xs) ys = written-append xs ys
written-append (destroy_session ∷ xs) ys = written-append xs ys

counted_tx-append :
    (xs ys : List RelayEffect) → counted_tx (xs ++ ys) ≡ counted_tx xs + counted_tx ys
counted_tx-append [] ys = omega arith
counted_tx-append (start_stream host port ∷ xs) ys = counted_tx-append xs ys
counted_tx-append (connect host port ∷ xs) ys = counted_tx-append xs ys
counted_tx-append (add_tx n ∷ xs) ys = omega (arith, counted_tx-append xs ys)
counted_tx-append (target_write bytes ∷ xs) ys = counted_tx-append xs ys
counted_tx-append (add_rx n ∷ xs) ys = counted_tx-append xs ys
counted_tx-append (send_ws bytes ∷ xs) ys = counted_tx-append xs ys
counted_tx-append (pause_client ∷ xs) ys = counted_tx-append xs ys
counted_tx-append (resume_client ∷ xs) ys = counted_tx-append xs ys
counted_tx-append (pause_source ∷ xs) ys = counted_tx-append xs ys
counted_tx-append (end_stream ∷ xs) ys = counted_tx-append xs ys
counted_tx-append (destroy_target ∷ xs) ys = counted_tx-append xs ys
counted_tx-append (destroy_session ∷ xs) ys = counted_tx-append xs ys

-- Nothing waits once the connection is up.
record IsOrdered (relay : TcpRelay) : Type 0 where
  valid : IsValid relay.pending_writes
  idle : (relay.connected ≡ false) ⊎ (contents relay.pending_writes ≡ [])

-- One step keeps the order, and what was waiting and what comes is written or waits.
abbrev Whole : TcpRelay → List ℕ → TcpRelay → List RelayEffect → Type 0
Whole relay payload relay' es =
    (written es ++ contents relay'.pending_writes ≡ contents relay.pending_writes ++ payload)
    × (counted_tx es ≡ length (written es))
    × IsOrdered relay'

written-pause :
    (w : Bool) (bytes : List ℕ)
    → written (add_tx (length bytes) ∷ target_write bytes ∷ pause_unless w) ≡ bytes
written-pause true bytes = append-nil bytes
written-pause false bytes = append-nil bytes

counted_tx-pause :
    (w : Bool) (bytes : List ℕ)
    → counted_tx (add_tx (length bytes) ∷ target_write bytes ∷ pause_unless w) ≡ length bytes
counted_tx-pause true bytes = omega arith
counted_tx-pause false bytes = omega arith

-- What is idle is empty, and what is empty is idle.
empty_of_size : (q : ByteQueue) → IsValid q → q.size ≡ 0 → contents q ≡ []
empty_of_size q v e = nil_of_length (contents q) (omega (arith, v.counted))

on_connect-Whole :
    (relay : TcpRelay) (w : Bool)
    → IsOrdered relay
    → Whole relay [] (on_connect relay w).0 (on_connect relay w).1
unfolding on_connect
on_connect-Whole relay w o =
    let q : ByteQueue = relay.pending_writes in
    elim (Bool-cases (q.size == 0)) [
      | inl none_left ↦
          let gone : contents q ≡ [] = empty_of_size q o.valid (ground arith) in
          rw none_left
            (sym (append-nil (contents q)), refl, record { valid = o.valid; idle = inr gone })
      | inr some_left ↦
          let cleared : contents (clear q) ≡ [] = contents-clear q in
          rw some_left (
            rw
                (
                  cleared,
                  written-pause w (flatten q).0,
                  append-nil (flatten q).0,
                  append-nil (contents q),
                )
                (flatten-contents q o.valid).0,
            rw (counted_tx-pause w (flatten q).0, written-pause w (flatten q).0) refl,
            record { valid = clear-IsValid q; idle = inr cleared },
          )
    ]

write-Whole :
    (q : ByteQueue) (connected closed : Bool) (payload : List ℕ) (w : Bool)
    → let relay : TcpRelay = record {
      pending_writes = q;
      connected = connected;
      closed = closed;
    } in
      IsOrdered relay → Whole relay payload (write relay payload w).0 (write relay payload w).1
unfolding write
write-Whole q connected closed [] w o = (sym (append-nil _), refl, o)
write-Whole q false closed (b ∷ bs) w o = (
  contents-push q (b ∷ bs),
  refl,
  record { valid = push-IsValid q (b ∷ bs) o.valid; idle = inl refl },
)
write-Whole q true closed (b ∷ bs) true o = elim o.idle [
  | inl off ↦ cc
  | inr gone ↦ (
    rw gone (append-nil ((b ∷ bs) ++ []) ∙ append-nil (b ∷ bs)),
    omega (arith, ap length (append-nil (b ∷ bs))),
    o,
  )
]
write-Whole q true closed (b ∷ bs) false o = elim o.idle [
  | inl off ↦ cc
  | inr gone ↦ (
    rw gone (append-nil ((b ∷ bs) ++ []) ∙ append-nil (b ∷ bs)),
    omega (arith, ap length (append-nil (b ∷ bs))),
    o,
  )
]

accept-Whole :
    (relay : TcpRelay) (i : Input)
    → IsOrdered relay
    → Whole relay (payloads (i ∷ [])) (accept relay i).0 (accept relay i).1
accept-Whole relay (client_sends payload w) o =
    rw (append-nil payload)
      (write-Whole relay.pending_writes relay.connected relay.closed payload w o)
accept-Whole relay (target_connects w) o = on_connect-Whole relay w o

payloads-head : (i : Input) (is : List Input) → payloads (i ∷ is) ≡ payloads (i ∷ []) ++ payloads is
payloads-head (client_sends payload w) is = rw (append-nil payload) refl
payloads-head (target_connects w) is = refl

accept_all-Whole :
    (is : List Input) (relay : TcpRelay)
    → IsOrdered relay
    → Whole relay (payloads is) (accept_all relay is).0 (accept_all relay is).1
unfolding accept_all
accept_all-Whole [] relay o = (sym (append-nil _), refl, o)
accept_all-Whole (i ∷ is) relay o =
    let now = accept-Whole relay i o in
    let relay' : TcpRelay = (accept relay i).0 in
    let later = accept_all-Whole is relay' now.2 in
    let first : List RelayEffect = (accept relay i).1 in
    let rest : List RelayEffect = (accept_all relay' is).1 in
    (
      rw
          (
            written-append first rest,
            append_assoc (written first) (written rest)
                (contents (accept_all relay' is).0.pending_writes),
            later.0,
            ← append_assoc (written first) (contents relay'.pending_writes) (payloads is),
            now.0,
            payloads-head i is,
          )
          (append_assoc (contents relay.pending_writes) (payloads (i ∷ [])) (payloads is)),
      omega (
        arith,
        counted_tx-append first rest,
        ap length (written-append first rest),
        length-append (written first) (written rest),
        now.1,
        later.1,
      ),
      later.2,
    )

-- However the client's messages and the connection of the target interleave, the target gets what
-- came with the header and then every message, in order and byte for byte, but for what still
-- waits for the connection; nothing waits once it is up. Each byte is counted as sent exactly once,
-- when it is written.
pub accept_all_lem :
    (host : Text) (port : ℕ) (initial : List ℕ) (is : List Input)
    → let relay = (create_relay host port initial).0 in
      let after = accept_all relay is in
      (written after.1 ++ contents after.0.pending_writes ≡ initial ++ payloads is)
      × (counted_tx after.1 ≡ length (written after.1))
      × ((after.0.connected ≡ false) ⊎ (contents after.0.pending_writes ≡ []))
unfolding create_relay clear contents
accept_all_lem host port initial is =
    let relay : TcpRelay = record {
      pending_writes = push empty_queue initial;
      connected = false;
      closed = false;
    } in
    let start : IsOrdered relay = record {
      valid = push-IsValid empty_queue initial (clear-IsValid empty_queue);
      idle = inl refl;
    } in
    let whole = accept_all-Whole is relay start in
    (
      whole.0 ∙ ap (λ xs. xs ++ payloads is) (contents-push empty_queue initial),
      whole.1,
      whole.2.idle,
    )
