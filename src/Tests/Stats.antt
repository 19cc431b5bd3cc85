-- ===== src/Tests/Stats.antt =====
-- A run of src/node/stats.js.
use better_nodejs_vless_ws.Base.{◌≡◌, ◌≤◌, some, List, [], ◌∷◌, length}
use better_nodejs_vless_ws.Base.Text.{codes}
use better_nodejs_vless_ws.Stats.{Stats, tcp_stream, udp_stream, create_stats}
use better_nodejs_vless_ws.Stats.Balance.{count, is_active, is_open, is_open_tcp, is_open_udp}
use better_nodejs_vless_ws.Stats.Calls.{
  Call, open_call, close_call, start_call, end_call, tx_call, apply_calls, apply_calls_lem,
}

-- Two connections, one of them closed twice, with two streams, one of them ended twice.
abbrev busy : List Call
busy =
    open_call (codes "ann") 5
    ∷ open_call [] 6
    ∷ start_call (some 1) tcp_stream (codes "a.b") 443
    ∷ start_call (some 2) udp_stream (codes "c.d") 53
    ∷ tx_call (some 1) (some 0) 100
    ∷ end_call 0
    ∷ end_call 0
    ∷ close_call 1 9
    ∷ close_call 1 10
    ∷ []

abbrev after_busy : Stats
after_busy = apply_calls (create_stats (codes "ann" ∷ [])) busy

apply_calls_lem_example :
    (after_busy.totals.active_connections ≡ count is_active after_busy.infos)
    × (after_busy.totals.active_streams ≡ count is_open after_busy.records)
    × (after_busy.totals.tcp_streams ≡ count is_open_tcp after_busy.records)
    × (after_busy.totals.udp_streams ≡ count is_open_udp after_busy.records)
    × (length after_busy.history ≤ 100)
apply_calls_lem_example = apply_calls_lem (codes "ann" ∷ []) busy
