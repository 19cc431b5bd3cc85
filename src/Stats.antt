-- ===== src/Stats.antt =====
-- src/node/stats.js: connections, streams and traffic, counted for the dashboard.
--
-- `infos` and `records` are the heaps of the records handed out by `openConnection` and
-- `startStream`, by number; a connection's number is its id. `connections` and `history` hold such
-- numbers. Times are milliseconds, given by the caller. `- 1` on ℕ stops at 0; the balance of
-- Stats/Balance says that no counter is 0 where the code takes 1 off.
pub mod Balance
pub mod Calls
use better_nodejs_vless_ws.Base.{
  ℕ, zero, suc, ◌+◌, ◌-◌, ◌*◌, Bool, true, false, not, Option, none, some, List, [], ◌∷◌, ◌++◌,
  if◌then◌else◌, ltb, leb, ◌==◌, length, drop,
}
use better_nodejs_vless_ws.Base.Text.{Text, codes, text_eq, decimal}
use better_nodejs_vless_ws.Base.Assoc.{map_get, map_set, map_delete}

pub data StreamProto : Type 0 where
  tcp_stream udp_stream : StreamProto

pub record UserRow : Type 0 where
  pub label : Text
  pub active : ℕ
  pub total : ℕ
  pub streams : ℕ
  pub bytes_tx : ℕ
  pub bytes_rx : ℕ

abbrev pub blank_user : Text → UserRow
blank_user label = record {
  label = label;
  active = 0;
  total = 0;
  streams = 0;
  bytes_tx = 0;
  bytes_rx = 0;
}

pub record Info : Type 0 where
  pub label : Text
  pub active : Bool
  pub start_time : ℕ
  pub end_time : ℕ
  pub streams : ℕ
  pub last_host : Text
  pub last_proto : StreamProto
  pub bytes_tx : ℕ
  pub bytes_rx : ℕ

pub record StreamRecord : Type 0 where
  pub proto : StreamProto
  pub ended : Bool
  pub tx_bytes : ℕ
  pub rx_bytes : ℕ

pub record Totals : Type 0 where
  pub total_connections : ℕ
  pub active_connections : ℕ
  pub total_streams : ℕ
  pub active_streams : ℕ
  pub total_bytes_tx : ℕ
  pub total_bytes_rx : ℕ
  pub tcp_streams : ℕ
  pub udp_streams : ℕ
  pub mux_sessions : ℕ

pub record Stats : Type 0 where
  pub connection_counter : ℕ
  pub by_user : List UserRow
  pub totals : Totals
  pub infos : List (ℕ × Info)
  pub connections : List (ℕ × ℕ)
  pub history : List ℕ
  pub records : List (ℕ × StreamRecord)
  pub next_record : ℕ

-- `byUser.get(label)`: a row is found by its label.
unfoldable pub find_row : Text → List UserRow → Option UserRow
find_row label [] = none
find_row label (row ∷ rows) = if text_eq row.label label then some row else find_row label rows

-- A change of the row of that label, where there is one.
unfoldable pub update_row : (UserRow → UserRow) → Text → List UserRow → List UserRow
update_row f label [] = []
update_row f label (row ∷ rows) =
    let rest = update_row f label rows in
    if text_eq row.label label then f row ∷ rows else row ∷ rest

-- `userRow`: the rows with one for the label, unless there are too many.
unfoldable pub user_row : Text → List UserRow → List UserRow
user_row label rows = elim (find_row label rows) [
  | some row ↦ rows
  | none ↦ if ltb 128 (length rows) then rows else rows ++ blank_user label ∷ []
]

abbrev pub max_history : ℕ
max_history = 100

-- `openConnection` returns the number of the record.
unfoldable pub open_connection : Stats → Text → ℕ → Stats × ℕ
open_connection s label now =
    let id = s.connection_counter + 1 in
    let info : Info = record {
      label = label;
      active = true;
      start_time = now;
      end_time = 0;
      streams = 0;
      last_host = [];
      last_proto = tcp_stream;
      bytes_tx = 0;
      bytes_rx = 0;
    } in
    let opened : UserRow → UserRow =
      λ row. record row { active = row.active + 1; total = row.total + 1 } in
    (
      record s {
        connection_counter = id;
        infos = map_set id info s.infos;
        connections = map_set id id s.connections;
        totals = record s.totals {
          total_connections = s.totals.total_connections + 1;
          active_connections = s.totals.active_connections + 1;
        };
        by_user = update_row opened label (user_row label s.by_user);
      },
      id,
    )

-- `history.push(info)`, then `shift` beyond the limit.
unfoldable pub remember : List ℕ → ℕ → List ℕ
remember history id =
    let longer = history ++ id ∷ [] in
    if ltb max_history (length longer) then drop 1 longer else longer

-- `closeConnection`, of a record that was handed out.
unfoldable pub retire : Stats → ℕ → Info → ℕ → Stats
retire s id info now =
    let closed : UserRow → UserRow =
      λ row. if ltb 0 row.active then record row { active = row.active - 1 } else row in
    record s {
      infos = map_set id (record info { active = false; end_time = now }) s.infos;
      totals = record s.totals { active_connections = s.totals.active_connections - 1 };
      connections = map_delete id s.connections;
      by_user = update_row closed info.label s.by_user;
      history = remember s.history id;
    }

unfoldable pub close_connection : Stats → ℕ → ℕ → Stats
close_connection s id now = elim (map_get id s.infos) [
  | none ↦ s
  | some info ↦ if info.active then retire s id info now else s
]

-- A change of the connection's record and of its user's row; `none` is a call without one.
unfoldable pub touch : (Info → Info) → (UserRow → UserRow) → Option ℕ → Stats → Stats
touch f g none s = s
touch f g (some id) s = elim (map_get id s.infos) [
  | none ↦ s
  | some info ↦ record s {
    infos = map_set id (f info) s.infos;
    by_user = update_row g info.label s.by_user;
  }
]

-- A change of a stream's record, where there is one.
unfoldable pub touch_record : (StreamRecord → StreamRecord) → Option ℕ → Stats → Stats
touch_record f none s = s
touch_record f (some r) s = elim (map_get r s.records) [
  | none ↦ s
  | some stream ↦ record s { records = map_set r (f stream) s.records }
]

abbrev pub count_proto : StreamProto → Totals → Totals
count_proto tcp_stream t = record t { tcp_streams = t.tcp_streams + 1 }
count_proto udp_stream t = record t { udp_streams = t.udp_streams + 1 }

-- `startStream` returns the number of the record. Its host, port and start time are left out, which
-- nothing reads.
unfoldable pub start_stream : Stats → Option ℕ → StreamProto → Text → ℕ → Stats × ℕ
start_stream s owner proto host port =
    let r = s.next_record in
    let fresh : StreamRecord = record {
      proto = proto;
      ended = false;
      tx_bytes = 0;
      rx_bytes = 0;
    } in
    let more : Totals = record s.totals {
      total_streams = s.totals.total_streams + 1;
      active_streams = s.totals.active_streams + 1;
    } in
    let started : Stats = record s {
      records = map_set r fresh s.records;
      next_record = r + 1;
      totals = count_proto proto more;
    } in
    let to_host : Info → Info = λ info. record info {
      streams = info.streams + 1;
      last_host = host ++ (codes ":" ++ decimal port);
      last_proto = proto;
    } in
    let one_more : UserRow → UserRow = λ row. record row { streams = row.streams + 1 } in
    (touch to_host one_more owner started, r)

abbrev pub uncount_proto : StreamProto → Totals → Totals
uncount_proto tcp_stream t = record t { tcp_streams = t.tcp_streams - 1 }
uncount_proto udp_stream t = record t { udp_streams = t.udp_streams - 1 }

-- `endStream`, of a record that was handed out.
unfoldable pub end_stream : Stats → ℕ → Stats
end_stream s r = elim (map_get r s.records) [
  | none ↦ s
  | some stream ↦
      let fewer : Totals = record s.totals { active_streams = s.totals.active_streams - 1 } in
      if stream.ended then s else record s {
        records = map_set r (record stream { ended = true }) s.records;
        totals = uncount_proto stream.proto fewer;
      }
]

-- `addTx`.
unfoldable pub add_tx : Stats → Option ℕ → Option ℕ → ℕ → Stats
add_tx s owner stream n =
    let more : Info → Info = λ info. record info { bytes_tx = info.bytes_tx + n } in
    let more_row : UserRow → UserRow = λ row. record row { bytes_tx = row.bytes_tx + n } in
    let more_stream : StreamRecord → StreamRecord = λ r. record r { tx_bytes = r.tx_bytes + n } in
    let counted : Stats = record s {
      totals = record s.totals { total_bytes_tx = s.totals.total_bytes_tx + n };
    } in
    touch more more_row owner (touch_record more_stream stream counted)

-- `addRx`.
unfoldable pub add_rx : Stats → Option ℕ → Option ℕ → ℕ → Stats
add_rx s owner stream n =
    let more : Info → Info = λ info. record info { bytes_rx = info.bytes_rx + n } in
    let more_row : UserRow → UserRow = λ row. record row { bytes_rx = row.bytes_rx + n } in
    let more_stream : StreamRecord → StreamRecord = λ r. record r { rx_bytes = r.rx_bytes + n } in
    let counted : Stats = record s {
      totals = record s.totals { total_bytes_rx = s.totals.total_bytes_rx + n };
    } in
    touch more more_row owner (touch_record more_stream stream counted)

-- `noteMuxSession`.
unfoldable pub note_mux_session : Stats → Stats
note_mux_session s = record s {
  totals = record s.totals { mux_sessions = s.totals.mux_sessions + 1 };
}

-- The rows of the configured labels; a label that comes twice has one row.
unfoldable pub seed_rows : List Text → List UserRow → List UserRow
seed_rows [] rows = rows
seed_rows (label ∷ labels) rows = seed_rows labels (elim (find_row label rows) [
  | none ↦ rows ++ blank_user label ∷ []
  | some row ↦ update_row (λ old. blank_user label) label rows
])

abbrev pub no_totals : Totals
no_totals = record {
  total_connections = 0;
  active_connections = 0;
  total_streams = 0;
  active_streams = 0;
  total_bytes_tx = 0;
  total_bytes_rx = 0;
  tcp_streams = 0;
  udp_streams = 0;
  mux_sessions = 0;
}

-- `createStats` with the option `labels`.
unfoldable pub create_stats : List Text → Stats
create_stats labels = record {
  connection_counter = 0;
  by_user = seed_rows labels [];
  totals = no_totals;
  infos = [];
  connections = [];
  history = [];
  records = [];
  next_record = 0;
}
