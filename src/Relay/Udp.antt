-- ===== src/Relay/Udp.antt =====
-- src/node/udp.js: datagrams in a stream, each with its length in two bytes in front.
-- Writing to a socket and counting are effects, in order; log lines are left out.
use better_nodejs_vless_ws.Base.{
  ℕ, zero, suc, ◌+◌, ◌*◌, ◌/◌, ◌%◌, ◌≤◌, ◌<◌, ◌≡◌, refl, ap, ◌∙◌, Bool, true, false, List, [], ◌∷◌,
  ◌++◌, if◌then◌else◌, ltb, length, arith, length-append, append_assoc, ◌⊎◌, inl, inr, drop_after,
}
use better_nodejs_vless_ws.Base.Bytes.{byte, sub_after, shr32, store, set_all, set_all_after}
use better_nodejs_vless_ws.WsFrame.Encode.{shape2}
use better_nodejs_vless_ws.Vless.Queue.{ByteQueue, push, slice, consume, clear}
use better_nodejs_vless_ws.Vless.Queue.Laws.{
  contents, IsValid, slice-contents, contents-consume, consume-IsValid, contents-push, push-IsValid,
  size-consume,
}
use better_nodejs_vless_ws.Mux.Drain.{peek_word}
use better_nodejs_vless_ws.Mux.Frames.{peek-contents}

pub record UdpRelay : Type 0 where
  pub inbound : ByteQueue
  pub closed : Bool

-- The loop of `write`, with at most `fuel` rounds: the queue behind it and the datagrams sent, in
-- order. Each is counted and then handed to `resolveAndSend`.
unfoldable pub drain_datagrams : ℕ → ByteQueue → ByteQueue × List (List ℕ)
drain_datagrams zero q = (q, [])
drain_datagrams (suc fuel) q =
    let len = peek_word q 0 in
    let packet = slice q 2 (2 + len) in
    let (q', later) = drain_datagrams fuel (consume q (2 + len)) in
    if ltb q.size 2 then (q, []) else if ltb q.size (2 + len) then (q, []) else (q', packet ∷ later)

-- `write`: each datagram takes two bytes at least, so one round for each byte and one more do.
unfoldable pub write : UdpRelay → List ℕ → UdpRelay × List (List ℕ)
write relay payload =
    let q = push relay.inbound payload in
    let (q', sent) = drain_datagrams (suc q.size) q in (record relay { inbound = q' }, sent)

-- The 'message' callback: the length, then the reply, in one array of `allocUnsafe`.
unfoldable pub frame_reply : (ℕ → List ℕ) → List ℕ → List ℕ
frame_reply alloc reply =
    let n = length reply in
    set_all (store (store (alloc (2 + n)) 0 (shr32 n 8)) 1 (n % 256)) reply 2

-- `close`: whether the stream ends, and the relay afterwards.
unfoldable pub close : UdpRelay → UdpRelay × Bool
close relay =
    if relay.closed
    then (relay, false)
    else (record { inbound = clear relay.inbound; closed = true }, true)

-- A datagram on the stream.
abbrev pub framed : List ℕ → List ℕ
framed packet = length packet / 256 ∷ length packet % 256 ∷ packet

abbrev pub all_framed : List (List ℕ) → List ℕ
all_framed [] = []
all_framed (p ∷ ps) = framed p ++ all_framed ps

abbrev pub Fits : List (List ℕ) → Type 0
Fits [] = Unit {0}
Fits (p ∷ ps) = (length p ≤ 65535) × Fits ps

-- Not all of a datagram.
abbrev pub IsPartial : List ℕ → Type 0
IsPartial rest = (length rest < 2) ⊎ (length rest < 2 + (byte rest 0 * 256 + byte rest 1))

drain_datagrams-partial :
    (fuel : ℕ) (q : ByteQueue)
    → IsValid q
    → IsPartial (contents q)
    → drain_datagrams fuel q ≡ (q, [])
unfolding drain_datagrams
drain_datagrams-partial zero q v partial = refl
drain_datagrams-partial (suc fuel) q v (inl short) = ground (arith, v.counted)
drain_datagrams-partial (suc fuel) q v (inr short) =
    ground (arith, v.counted, peek-contents q 0 v, peek-contents q 1 v)

drain_datagrams-framed :
    (fuel : ℕ) (q : ByteQueue) (packets : List (List ℕ)) (rest : List ℕ)
    → IsValid q
    → contents q ≡ all_framed packets ++ rest
    → Fits packets
    → IsPartial rest
    → q.size < fuel
    → ((drain_datagrams fuel q).1 ≡ packets)
      × (contents (drain_datagrams fuel q).0 ≡ rest)
      × IsValid (drain_datagrams fuel q).0
unfolding drain_datagrams
drain_datagrams-framed fuel q [] rest v e fits partial h =
    rw (drain_datagrams-partial fuel q v (rw e partial)) (refl, e, v)
drain_datagrams-framed zero q (p ∷ ps) rest v e fits partial h = elim h [ ]
drain_datagrams-framed (suc fuel) q (p ∷ ps) rest v e fits partial h =
    let n : ℕ = length p in
    let lead : List ℕ = n / 256 ∷ n % 256 ∷ [] in
    let tail : List ℕ = all_framed ps ++ rest in
    let whole : contents q ≡ framed p ++ tail = e ∙ append_assoc (framed p) (all_framed ps) rest in
    let size : q.size ≡ 2 + n + length tail =
      omega (arith, v.counted, ap length whole, length-append p tail) in
    let len : peek_word q 0 ≡ n = omega (
      arith,
      peek-contents q 0 v,
      peek-contents q 1 v,
      fits.0,
      ap (λ (xs : List ℕ). byte xs 0) whole,
      ap (λ (xs : List ℕ). byte xs 1) whole,
    ) in
    let read : slice q 2 (2 + n) ≡ p =
      slice-contents q 2 (2 + n) v ∙ rw whole (sub_after lead p tail 2 (2 + n) refl refl) in
    let left : contents (consume q (2 + n)) ≡ tail =
      contents-consume q (2 + n) v ∙ rw whole (drop_after (2 + n) (framed p) tail (omega arith)) in
    let shrunk : (consume q (2 + n)).size < fuel = omega (arith, size-consume q (2 + n)) in
    let later =
      drain_datagrams-framed fuel (consume q (2 + n)) ps rest (consume-IsValid q (2 + n) v) left
        fits.1 partial shrunk in
    let more : (ltb q.size 2 ≡ false) × (ltb q.size (2 + n) ≡ false) = ground (arith, size) in
    rw (len, more.0, more.1, read) (ap (◌∷◌ p) later.0, later.1, later.2)

-- A write sends exactly the datagrams that are complete with it, in order and byte for byte, and
-- keeps the beginning of the next one, whatever part of the stream earlier writes left in the queue.
-- Every datagram is of at most 65535 bytes, and the size of the queue is the number of its bytes,
-- before and after.
pub write_sends :
    (relay : UdpRelay) (payload : List ℕ) (packets : List (List ℕ)) (rest : List ℕ)
    → IsValid relay.inbound
    → contents relay.inbound ++ payload ≡ all_framed packets ++ rest
    → Fits packets
    → IsPartial rest
    → ((write relay payload).1 ≡ packets)
      × (contents (write relay payload).0.inbound ≡ rest)
      × IsValid (write relay payload).0.inbound
unfolding write
write_sends relay payload packets rest v e fits partial =
    let q : ByteQueue = push relay.inbound payload in
    drain_datagrams-framed (suc q.size) q packets rest (push-IsValid relay.inbound payload v)
      (contents-push relay.inbound payload ∙ e) fits partial (omega arith)

-- A reply goes back as one datagram of the same layout, whatever the array from `allocUnsafe`
-- held. That function returns arrays of the size asked for, and the reply has at most 65535 bytes.
pub frame_reply_lem :
    (alloc : ℕ → List ℕ) (alloc_size : (n : ℕ) → length (alloc n) ≡ n) (reply : List ℕ)
    → length reply ≤ 65535
    → frame_reply alloc reply ≡ framed reply
unfolding frame_reply
frame_reply_lem alloc alloc_size reply h =
    let (a, b, old, e) =
      shape2 (alloc (2 + length reply)) (omega (arith, alloc_size (2 + length reply))) in
    let size : length old ≡ length reply =
      omega (arith, alloc_size (2 + length reply), ap length e) in
    let lead : List ℕ = length reply / 256 ∷ length reply % 256 ∷ [] in
    rw e (ground (arith, set_all_after lead old reply 2 refl size))
