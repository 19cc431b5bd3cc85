-- ===== src/Stats/Calls.antt =====
-- src/node/stats.js: any sequence of calls keeps the counters balanced.
use better_nodejs_vless_ws.Base.{
  ℕ, ◌+◌, ◌-◌, ◌≤◌, ◌≡◌, refl, ap, ◌∙◌, Bool, true, false, not, Option, none, some, List, [], ◌∷◌,
  length, arith, Bool-cases, Option-cases, inl, inr,
}
use better_nodejs_vless_ws.Base.Text.{Text}
use better_nodejs_vless_ws.Base.Assoc.{map_get, map_set}
use better_nodejs_vless_ws.Stats.{
  Stats, Info, StreamRecord, StreamProto, Totals, UserRow, tcp_stream, udp_stream, open_connection,
  close_connection, uncount_proto, start_stream, end_stream, touch, touch_record, add_tx, add_rx,
  note_mux_session, create_stats,
}
use better_nodejs_vless_ws.Stats.Balance.{
  count, count-map_set_new, count-map_set_known, Below-map_get, Below-map_set, Below-later,
  Below-known, is_active, is_open, is_open_tcp, is_open_udp, IsBalanced, open_connection-IsBalanced,
  close_connection-IsBalanced,
}

-- A change that a test does not see.
count-map_set_same {ℓ} :
    {V : Type ℓ} (f : V → Bool) (k : ℕ) (v u : V) (m : List (ℕ × V))
    → map_get k m ≡ some u
    → f v ≡ f u
    → count f (map_set k v m) ≡ count f m
count-map_set_same f k v u m e h = ground (arith, count-map_set_known f k v u m e)

touch-IsBalanced :
    (f : Info → Info) (g : UserRow → UserRow) (same : (info : Info) → (f info).active ≡ info.active)
    (owner : Option ℕ) (s : Stats)
    → IsBalanced s
    → IsBalanced (touch f g owner s)
unfolding touch
touch-IsBalanced f g same none s b = b
touch-IsBalanced f g same (some id) s b = elim (Option-cases (map_get id s.infos)) [
  | inl e ↦ rw (e, touch) b
  | inr (info, e) ↦
      rw (e, touch)
        (record {
          fresh_ids =
              Below-map_set (s.connection_counter + 1) id _ s.infos
                (Below-known (s.connection_counter + 1) id info s.infos b.fresh_ids e) b.fresh_ids;
          fresh_records = b.fresh_records;
          active = omega (
            arith,
            b.active,
            count-map_set_same is_active id (f info) info s.infos e (same info),
          );
          streams = b.streams;
          tcp = b.tcp;
          udp = b.udp;
          bounded = b.bounded;
        })
]

touch_record-IsBalanced :
    (f : StreamRecord → StreamRecord) (same : (r : StreamRecord) → (f r).ended ≡ r.ended)
    (alike : (r : StreamRecord) → (f r).proto ≡ r.proto) (stream : Option ℕ) (s : Stats)
    → IsBalanced s
    → IsBalanced (touch_record f stream s)
unfolding touch_record
touch_record-IsBalanced f same alike none s b = b
touch_record-IsBalanced f same alike (some r) s b = elim (Option-cases (map_get r s.records)) [
  | inl e ↦ rw (e, touch_record) b
  | inr (old, e) ↦
      let new : StreamRecord = f old in
      rw (e, touch_record)
        (record {
          fresh_ids = b.fresh_ids;
          fresh_records =
              Below-map_set s.next_record r _ s.records
                (Below-known s.next_record r old s.records b.fresh_records e) b.fresh_records;
          active = b.active;
          streams = omega (
            arith,
            b.streams,
            count-map_set_same is_open r new old s.records e (ap not (same old)),
          );
          tcp = omega (
            arith,
            b.tcp,
            count-map_set_same is_open_tcp r new old s.records e (rw (same old, alike old) refl),
          );
          udp = omega (
            arith,
            b.udp,
            count-map_set_same is_open_udp r new old s.records e (rw (same old, alike old) refl),
          );
          bounded = b.bounded;
        })
]

start_stream-IsBalanced :
    (s : Stats) (owner : Option ℕ) (proto : StreamProto) (host : Text) (port : ℕ)
    → IsBalanced s
    → IsBalanced (start_stream s owner proto host port).0
unfolding start_stream
start_stream-IsBalanced s owner tcp_stream host port b =
    let r : ℕ = s.next_record in
    let new : map_get r s.records ≡ none = Below-map_get r s.records b.fresh_records in
    let fresh : StreamRecord = record {
      proto = tcp_stream;
      ended = false;
      tx_bytes = 0;
      rx_bytes = 0;
    } in
    touch-IsBalanced _ _ (λ info. refl) owner _
      (record {
        fresh_ids = b.fresh_ids;
        fresh_records =
            Below-map_set (r + 1) r fresh s.records (omega arith)
              (Below-later r s.records b.fresh_records);
        active = b.active;
        streams = omega (arith, b.streams, count-map_set_new is_open r fresh s.records new);
        tcp = omega (arith, b.tcp, count-map_set_new is_open_tcp r fresh s.records new);
        udp = omega (arith, b.udp, count-map_set_new is_open_udp r fresh s.records new);
        bounded = b.bounded;
      })
start_stream-IsBalanced s owner udp_stream host port b =
    let r : ℕ = s.next_record in
    let new : map_get r s.records ≡ none = Below-map_get r s.records b.fresh_records in
    let fresh : StreamRecord = record {
      proto = udp_stream;
      ended = false;
      tx_bytes = 0;
      rx_bytes = 0;
    } in
    touch-IsBalanced _ _ (λ info. refl) owner _
      (record {
        fresh_ids = b.fresh_ids;
        fresh_records =
            Below-map_set (r + 1) r fresh s.records (omega arith)
              (Below-later r s.records b.fresh_records);
        active = b.active;
        streams = omega (arith, b.streams, count-map_set_new is_open r fresh s.records new);
        tcp = omega (arith, b.tcp, count-map_set_new is_open_tcp r fresh s.records new);
        udp = omega (arith, b.udp, count-map_set_new is_open_udp r fresh s.records new);
        bounded = b.bounded;
      })

-- Ending a record of either protocol takes one off the counters that it is in.
end_record :
    (s : Stats) (r : ℕ) (old : StreamRecord)
    → IsBalanced s
    → map_get r s.records ≡ some old
    → old.ended ≡ false
    → IsBalanced (record s {
      records = map_set r (record old { ended = true }) s.records;
      totals =
          uncount_proto old.proto
            (record s.totals { active_streams = s.totals.active_streams - 1 });
    })
end_record s r old b e open_yet =
    let gone : StreamRecord = record old { ended = true } in
    let all = count-map_set_known is_open r gone old s.records e in
    let tcp_part = count-map_set_known is_open_tcp r gone old s.records e in
    let udp_part = count-map_set_known is_open_udp r gone old s.records e in
    record {
      fresh_ids = b.fresh_ids;
      fresh_records =
          Below-map_set s.next_record r gone s.records
            (Below-known s.next_record r old s.records b.fresh_records e) b.fresh_records;
      active = ground (arith, b.active);
      streams = ground (arith, b.streams, all, open_yet);
      tcp = ground (arith, b.tcp, tcp_part, open_yet);
      udp = ground (arith, b.udp, udp_part, open_yet);
      bounded = b.bounded;
    }

end_stream-IsBalanced : (s : Stats) (r : ℕ) → IsBalanced s → IsBalanced (end_stream s r)
unfolding end_stream
end_stream-IsBalanced s r b = elim (Option-cases (map_get r s.records)) [
  | inl e ↦ rw (e, end_stream) b
  | inr (old, e) ↦ elim (Bool-cases old.ended) [
    | inl done ↦ rw (e, end_stream) (rw done b)
    | inr open_yet ↦ rw (e, end_stream) (rw open_yet (end_record s r old b e open_yet))
  ]
]

-- A call on the counters.
pub data Call : Type 0 where
  open_call : Text → ℕ → Call
  close_call : ℕ → ℕ → Call
  start_call : Option ℕ → StreamProto → Text → ℕ → Call
  end_call : ℕ → Call
  tx_call rx_call : Option ℕ → Option ℕ → ℕ → Call
  mux_call : Call

abbrev pub apply_call : Stats → Call → Stats
apply_call s (open_call label now) = (open_connection s label now).0
apply_call s (close_call id now) = close_connection s id now
apply_call s (start_call owner proto host port) = (start_stream s owner proto host port).0
apply_call s (end_call r) = end_stream s r
apply_call s (tx_call owner stream n) = add_tx s owner stream n
apply_call s (rx_call owner stream n) = add_rx s owner stream n
apply_call s mux_call = note_mux_session s

abbrev pub apply_calls : Stats → List Call → Stats
apply_calls s [] = s
apply_calls s (c ∷ cs) = apply_calls (apply_call s c) cs

-- A change of other totals does not matter.
retotal :
    (s : Stats) (t : Totals)
    → t.active_connections ≡ s.totals.active_connections
    → t.active_streams ≡ s.totals.active_streams
    → t.tcp_streams ≡ s.totals.tcp_streams
    → t.udp_streams ≡ s.totals.udp_streams
    → IsBalanced s
    → IsBalanced (record s { totals = t })
retotal s t a n c u b = record {
  fresh_ids = b.fresh_ids;
  fresh_records = b.fresh_records;
  active = a ∙ b.active;
  streams = n ∙ b.streams;
  tcp = c ∙ b.tcp;
  udp = u ∙ b.udp;
  bounded = b.bounded;
}

apply_call-IsBalanced : (s : Stats) (c : Call) → IsBalanced s → IsBalanced (apply_call s c)
unfolding add_tx add_rx note_mux_session
apply_call-IsBalanced s (open_call label now) b = open_connection-IsBalanced s label now b
apply_call-IsBalanced s (close_call id now) b = close_connection-IsBalanced s id now b
apply_call-IsBalanced s (start_call owner proto host port) b =
    start_stream-IsBalanced s owner proto host port b
apply_call-IsBalanced s (end_call r) b = end_stream-IsBalanced s r b
apply_call-IsBalanced s (tx_call owner stream n) b =
    touch-IsBalanced _ _ (λ info. refl) owner _
      (touch_record-IsBalanced _ (λ r. refl) (λ r. refl) stream _
        (retotal s _ refl refl refl refl b))
apply_call-IsBalanced s (rx_call owner stream n) b =
    touch-IsBalanced _ _ (λ info. refl) owner _
      (touch_record-IsBalanced _ (λ r. refl) (λ r. refl) stream _
        (retotal s _ refl refl refl refl b))
apply_call-IsBalanced s mux_call b = retotal s _ refl refl refl refl b

apply_calls-IsBalanced : (cs : List Call) (s : Stats) → IsBalanced s → IsBalanced (apply_calls s cs)
apply_calls-IsBalanced [] s b = b
apply_calls-IsBalanced (c ∷ cs) s b =
    apply_calls-IsBalanced cs (apply_call s c) (apply_call-IsBalanced s c b)

create_stats-IsBalanced : (labels : List Text) → IsBalanced (create_stats labels)
unfolding create_stats count
create_stats-IsBalanced labels = record {
  fresh_ids = tt;
  fresh_records = tt;
  active = refl;
  streams = refl;
  tcp = refl;
  udp = refl;
  bounded = omega arith;
}

-- Whatever calls are made, in any order and as often as teardown repeats them, the counters are
-- right: the active connections, active streams, TCP streams and UDP streams are exactly the
-- records that are not yet closed or ended, so none drifts or goes negative, and the history holds
-- at most 100 connections.
pub apply_calls_lem :
    (labels : List Text) (cs : List Call)
    → let s = apply_calls (create_stats labels) cs in
      (s.totals.active_connections ≡ count is_active s.infos)
      × (s.totals.active_streams ≡ count is_open s.records)
      × (s.totals.tcp_streams ≡ count is_open_tcp s.records)
      × (s.totals.udp_streams ≡ count is_open_udp s.records)
      × (length s.history ≤ 100)
apply_calls_lem labels cs =
    let b = apply_calls-IsBalanced cs (create_stats labels) (create_stats-IsBalanced labels) in
    (b.active, b.streams, b.tcp, b.udp, b.bounded)
