-- ===== src/Mux/Blocked.antt =====
-- src/node/mux.js: no frame, and no order of frames, gets a substream to a blocked domain.
use better_nodejs_vless_ws.Base.{
  ℕ, zero, suc, ◌≡◌, ◌&&◌, false, Option, none, some, List, [], ◌∷◌, ◌++◌, arith, ◌==◌, ltb,
  Bool-cases, Option-cases, inl, inr, All, All-append, length,
}
use better_nodejs_vless_ws.Base.Bytes.{byte, word}
use better_nodejs_vless_ws.Base.Assoc.{
  map_get, Values, map_set-Values, map_delete-Values, map_get-Values,
}
use better_nodejs_vless_ws.Vless.Address.{Unicode, is_blocked_domain}
use better_nodejs_vless_ws.Vless.Queue.{push}
use better_nodejs_vless_ws.Mux.{
  Mux, Effect, UdpEntry, MuxTarget, start_stream, end_stream_record, retarget_record, add_tx,
  add_rx, connect, open_udp_socket, tcp_write, udp_send, destroy_socket, pause_source, send_mux,
  open_tcp, open_udp, send_udp, send_end, new_target, on_new, retarget, keep_data, keep_rest,
  on_keep, end_tcp, end_udp, end_stream, read_target, entry_of,
}
use better_nodejs_vless_ws.Mux.Drain.{look, dispatch, drain_loop, drain, write}
use better_nodejs_vless_ws.Mux.Rounds.{Look-cases}

module _ (unicode : Unicode) where
  -- A connection or a datagram goes to a host that is not blocked.
  abbrev pub IsAllowed : Effect → Type 0
  IsAllowed (start_stream socket proto host port) = is_blocked_domain unicode host ≡ false
  IsAllowed (connect socket host port) = is_blocked_domain unicode host ≡ false
  IsAllowed (udp_send socket host port bytes) = is_blocked_domain unicode host ≡ false
  IsAllowed (retarget_record socket host port) = is_blocked_domain unicode host ≡ false
  IsAllowed (end_stream_record socket) = Unit {0}
  IsAllowed (add_tx socket n) = Unit {0}
  IsAllowed (add_rx socket n) = Unit {0}
  IsAllowed (open_udp_socket socket) = Unit {0}
  IsAllowed (tcp_write socket bytes) = Unit {0}
  IsAllowed (destroy_socket socket) = Unit {0}
  IsAllowed (pause_source socket) = Unit {0}
  IsAllowed (send_mux meta has_data bytes) = Unit {0}

  abbrev pub IsAllowedEntry : UdpEntry → Type 0
  IsAllowedEntry e = is_blocked_domain unicode e.host ≡ false

  -- Every datagram substream of the session points at such a host.
  abbrev pub IsClean : Mux → Type 0
  IsClean m = Values IsAllowedEntry m.udp

  abbrev IsCleanStep : Mux → List Effect → Type 0
  IsCleanStep m effects = IsClean m × All IsAllowed effects

  new_target-IsClean :
      (m : Mux) (id : ℕ) (t : MuxTarget) (bytes : Option (List ℕ))
      → IsClean m
      → IsCleanStep (new_target unicode m id t bytes).0 (new_target unicode m id t bytes).1
  unfolding new_target open_tcp open_udp send_udp send_end
  new_target-IsClean m id t bytes c = elim (Bool-cases (is_blocked_domain unicode t.host)) [
    | inl bad ↦ rw bad (c, (tt, tt))
    | inr good ↦ rw good (
        ground (
          arith,
          map_set-Values IsAllowedEntry id
              (record { socket = m.next_socket; host = t.host; port = t.port }) m.udp good c,
        ))
  ]

  on_new-IsClean :
      (m : Mux) (id : ℕ) (meta : List ℕ) (bytes : Option (List ℕ))
      → IsClean m
      → IsCleanStep (on_new unicode m id meta bytes).0 (on_new unicode m id meta bytes).1
  unfolding on_new
  on_new-IsClean m id meta bytes c = elim (Option-cases (read_target unicode meta)) [
    | inl e ↦ rw (e, on_new) (c, tt)
    | inr (t, e) ↦ rw (e, on_new) (new_target-IsClean m id t bytes c)
  ]

  retarget-IsClean :
      (m : Mux) (id : ℕ) (t : MuxTarget)
      → is_blocked_domain unicode t.host ≡ false
      → IsClean m
      → IsCleanStep (retarget m id t).0 (retarget m id t).1
  unfolding retarget open_udp
  retarget-IsClean m id t good c = elim (Option-cases (map_get id m.udp)) [
    | inl e ↦ rw (e, retarget) (map_set-Values IsAllowedEntry id _ m.udp good c, (good, (tt, tt)))
    | inr (old, e) ↦ rw (e, retarget) (map_set-Values IsAllowedEntry id _ m.udp good c, (good, tt))
  ]

  keep_data-IsClean :
      (m : Mux) (id : ℕ) (bytes : List ℕ)
      → IsClean m
      → IsCleanStep (keep_data m id bytes).0 (keep_data m id bytes).1
  unfolding keep_data send_udp
  keep_data-IsClean m id bytes c = elim (Option-cases (map_get id m.tcp)) [
    | inr (socket, e) ↦ elim (Bool-cases (entry_of m socket).connected) [
      | inl on ↦ rw (e, keep_data) (rw on (c, (tt, (tt, tt))))
      | inr off ↦ rw (e, keep_data) (rw off (c, (tt, tt)))
    ]
    | inl e ↦ elim (Option-cases (map_get id m.udp)) [
      | inl none_there ↦ rw (e, keep_data) (rw (none_there, keep_data) (c, tt))
      | inr (entry, there) ↦
          rw (e, keep_data)
            (rw (there, keep_data)
              (c, (tt, (map_get-Values IsAllowedEntry id m.udp entry c there, tt))))
    ]
  ]

  keep_rest-IsClean :
      (m : Mux) (id : ℕ) (bytes : Option (List ℕ))
      → IsClean m
      → IsCleanStep (keep_rest m id bytes).0 (keep_rest m id bytes).1
  unfolding keep_rest
  keep_rest-IsClean m id none c = (c, tt)
  keep_rest-IsClean m id (some []) c = (c, tt)
  keep_rest-IsClean m id (some (b ∷ bs)) c = keep_data-IsClean m id (b ∷ bs) c

  keep_target-IsClean :
      (m : Mux) (id : ℕ) (t : MuxTarget) (bytes : Option (List ℕ))
      → is_blocked_domain unicode t.host ≡ false
      → IsClean m
      → IsCleanStep
          (keep_rest (retarget m id t).0 id bytes).0
          ((retarget m id t).1 ++ (keep_rest (retarget m id t).0 id bytes).1)
  keep_target-IsClean m id t bytes good c =
      let first = retarget-IsClean m id t good c in
      let second = keep_rest-IsClean (retarget m id t).0 id bytes first.0 in
      (second.0, All-append IsAllowed (retarget m id t).1 _ first.1 second.1)

  on_keep-IsClean :
      (m : Mux) (id : ℕ) (meta : List ℕ) (bytes : Option (List ℕ))
      → IsClean m
      → IsCleanStep (on_keep unicode m id meta bytes).0 (on_keep unicode m id meta bytes).1
  unfolding on_keep send_end
  on_keep-IsClean m id meta bytes c = elim (Bool-cases (ltb 4 (length meta) && byte meta 4 == 2)) [
    | inr plain ↦ rw plain (keep_rest-IsClean m id bytes c)
    | inl moved ↦ elim (Option-cases (read_target unicode meta)) [
      | inl e ↦ rw moved (rw (e, on_keep) (c, tt))
      | inr (t, e) ↦ elim (Bool-cases (is_blocked_domain unicode t.host)) [
        | inl bad ↦ rw moved (rw (e, on_keep) (rw bad (c, (tt, tt))))
        | inr good ↦ rw moved (rw (e, on_keep) (rw good (keep_target-IsClean m id t bytes good c)))
      ]
    ]
  ]

  end_stream-IsClean :
      (m : Mux) (id : ℕ) → IsClean m → IsCleanStep (end_stream m id).0 (end_stream m id).1
  unfolding end_stream end_tcp end_udp
  end_stream-IsClean m id c = ground (arith, map_delete-Values IsAllowedEntry id m.udp c)

  dispatch-IsClean :
      (m : Mux) (meta : List ℕ) (bytes : Option (List ℕ))
      → IsClean m
      → IsCleanStep (dispatch unicode m meta bytes).0 (dispatch unicode m meta bytes).1
  unfolding dispatch
  dispatch-IsClean m meta bytes c = ground (
    arith,
    on_new-IsClean m (word meta 0) meta bytes c,
    on_keep-IsClean m (word meta 0) meta bytes c,
    end_stream-IsClean m (word meta 0) c,
  )

  drain_loop-IsClean :
      (fuel : ℕ) (m : Mux)
      → IsClean m
      → IsCleanStep (drain_loop unicode fuel m).0 (drain_loop unicode fuel m).1
  unfolding drain_loop
  drain_loop-IsClean zero m c = (c, tt)
  drain_loop-IsClean (suc fuel) m c = elim (Look-cases (look m.queue)) [
    | inl e ↦ rw (e, drain_loop) (c, tt)
    | inr (inl (rest, e)) ↦ rw (e, drain_loop) (c, tt)
    | inr (inr (meta, bytes, rest, e)) ↦
        let taken : Mux = record m { queue = rest } in
        let step = dispatch-IsClean taken meta bytes c in
        let next : Mux = (dispatch unicode taken meta bytes).0 in
        let later = drain_loop-IsClean fuel next step.0 in
        rw (e, drain_loop)
          (elim (Bool-cases (dispatch unicode taken meta bytes).2) [
            | inl on ↦ rw on (
              later.0,
              All-append IsAllowed (dispatch unicode taken meta bytes).1 _ step.1 later.1,
            )
            | inr off ↦ rw off step
          ])
  ]

  -- From a session none of whose datagram substreams points at a blocked host, whatever bytes a
  -- client writes, whole frames or pieces, the session opens no stream, no connection and no
  -- datagram to a blocked host, New and Keep frames alike, and again no datagram substream is left
  -- pointing at one.
  pub write-IsClean :
      (m : Mux) (payload : List ℕ)
      → IsClean m
      → IsClean (write unicode m payload).0 × All IsAllowed (write unicode m payload).1
  unfolding write drain
  write-IsClean m payload c =
      drain_loop-IsClean (suc (push m.queue payload).size)
        (record m { queue = push m.queue payload }) c
