-- ===== src/Stats/Balance.antt =====
-- src/node/stats.js: the counters of what is active balance with what is active.
use better_nodejs_vless_ws.Base.{
  ℕ, ◌+◌, ◌≤◌, ◌<◌, ◌≡◌, refl, ap, Bool, false, not, Option, none, some, List, [], ◌∷◌, ◌++◌,
  if◌then◌else◌, length, arith, Bool-cases, Option-cases, inl, inr, length-append, length-drop,
}
use better_nodejs_vless_ws.Base.Text.{Text}
use better_nodejs_vless_ws.Base.Assoc.{map_get, map_set}
use better_nodejs_vless_ws.Stats.{
  Stats, Info, StreamRecord, tcp_stream, udp_stream, open_connection, close_connection, retire,
  remember,
}

-- How many values satisfy a test.
unfoldable pub count {ℓ} : {V : Type ℓ} → (V → Bool) → List (ℕ × V) → ℕ
count f [] = 0
count f ((k, v) ∷ m) = (if f v then 1 else 0) + count f m

pub count-map_set_new {ℓ} :
    {V : Type ℓ} (f : V → Bool) (k : ℕ) (v : V) (m : List (ℕ × V))
    → map_get k m ≡ none
    → count f (map_set k v m) ≡ (if f v then 1 else 0) + count f m
unfolding count map_get map_set
count-map_set_new f k v [] e = refl
count-map_set_new f k v ((j, w) ∷ m) e = ground (arith, count-map_set_new f k v m)

abbrev weigh {ℓ} : {V : Type ℓ} → (V → Bool) → Option V → ℕ
weigh f none = 0
weigh f (some v) = if f v then 1 else 0

pub count-map_set_known {ℓ} :
    {V : Type ℓ} (f : V → Bool) (k : ℕ) (v u : V) (m : List (ℕ × V))
    → map_get k m ≡ some u
    → count f (map_set k v m) + (if f u then 1 else 0) ≡ (if f v then 1 else 0) + count f m
unfolding count map_get map_set
count-map_set_known f k v u [] e = cc
count-map_set_known f k v u ((j, w) ∷ m) e =
    ground (arith, count-map_set_known f k v u m, ap (weigh f) e)

-- Every key is below a number.
abbrev pub Below {ℓ} : {V : Type ℓ} → ℕ → List (ℕ × V) → Type 0
Below n [] = Unit {0}
Below n ((k, v) ∷ m) = (k < n) × Below n m

pub Below-map_get {ℓ} : {V : Type ℓ} (n : ℕ) (m : List (ℕ × V)) → Below n m → map_get n m ≡ none
unfolding map_get
Below-map_get n [] b = refl
Below-map_get n ((k, v) ∷ m) b = ground (arith, Below-map_get n m b.1)

pub Below-map_set {ℓ} :
    {V : Type ℓ} (n k : ℕ) (v : V) (m : List (ℕ × V)) → k < n → Below n m → Below n (map_set k v m)
unfolding map_set
Below-map_set n k v [] h b = (h, tt)
Below-map_set n k v ((j, w) ∷ m) h b = ground (arith, Below-map_set n k v m h b.1)

pub Below-later {ℓ} : {V : Type ℓ} (n : ℕ) (m : List (ℕ × V)) → Below n m → Below (n + 1) m
Below-later n [] b = tt
Below-later n ((k, v) ∷ m) b = (omega arith, Below-later n m b.1)

pub Below-known {ℓ} :
    {V : Type ℓ} (n k : ℕ) (v : V) (m : List (ℕ × V)) → Below n m → map_get k m ≡ some v → k < n
unfolding map_get
Below-known n k v [] b e = cc
Below-known n k v ((j, w) ∷ m) b e = ground (arith, Below-known n k v m b.1)

abbrev pub is_active : Info → Bool
is_active info = info.active

abbrev pub is_open : StreamRecord → Bool
is_open r = not r.ended

abbrev pub is_open_tcp : StreamRecord → Bool
is_open_tcp r = elim r.proto [ tcp_stream ↦ not r.ended | udp_stream ↦ false ]

abbrev pub is_open_udp : StreamRecord → Bool
is_open_udp r = elim r.proto [ tcp_stream ↦ false | udp_stream ↦ not r.ended ]

-- The counters say how many records are active, and ids are fresh.
pub record IsBalanced (s : Stats) : Type 0 where
  pub fresh_ids : Below (s.connection_counter + 1) s.infos
  pub fresh_records : Below s.next_record s.records
  pub active : s.totals.active_connections ≡ count is_active s.infos
  pub streams : s.totals.active_streams ≡ count is_open s.records
  pub tcp : s.totals.tcp_streams ≡ count is_open_tcp s.records
  pub udp : s.totals.udp_streams ≡ count is_open_udp s.records
  pub bounded : length s.history ≤ 100

pub open_connection-IsBalanced :
    (s : Stats) (label : Text) (now : ℕ) → IsBalanced s → IsBalanced (open_connection s label now).0
unfolding open_connection
open_connection-IsBalanced s label now b =
    let id : ℕ = s.connection_counter + 1 in
    record {
      fresh_ids =
          Below-map_set (id + 1) id _ s.infos (omega arith) (Below-later id s.infos b.fresh_ids);
      fresh_records = b.fresh_records;
      active = omega (
        arith,
        b.active,
        count-map_set_new is_active id _ s.infos (Below-map_get id s.infos b.fresh_ids),
      );
      streams = b.streams;
      tcp = b.tcp;
      udp = b.udp;
      bounded = b.bounded;
    }

length-remember :
    (history : List ℕ) (id : ℕ) → length history ≤ 100 → length (remember history id) ≤ 100
unfolding remember
length-remember history id h =
    ground (arith, length-append history (id ∷ []), length-drop 1 (history ++ id ∷ []))

pub close_connection-IsBalanced :
    (s : Stats) (id now : ℕ) → IsBalanced s → IsBalanced (close_connection s id now)
unfolding close_connection retire
close_connection-IsBalanced s id now b = elim (Option-cases (map_get id s.infos)) [
  | inl e ↦ rw (e, close_connection) b
  | inr (info, e) ↦ elim (Bool-cases info.active) [
    | inr off ↦ rw (e, close_connection) (rw off b)
    | inl on ↦
        let known = Below-known (s.connection_counter + 1) id info s.infos b.fresh_ids e in
        let closed : Info = record info { active = false; end_time = now } in
        let one_less = count-map_set_known is_active id closed info s.infos e in
        rw (e, close_connection)
          (rw on (record {
            fresh_ids = Below-map_set (s.connection_counter + 1) id _ s.infos known b.fresh_ids;
            fresh_records = b.fresh_records;
            active = ground (arith, b.active, one_less, on);
            streams = b.streams;
            tcp = b.tcp;
            udp = b.udp;
            bounded = length-remember s.history id b.bounded;
          }))
  ]
]
