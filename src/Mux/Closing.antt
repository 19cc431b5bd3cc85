-- ===== src/Mux/Closing.antt =====
-- src/node/mux.js: `close` ends every substream of the tables.
use better_nodejs_vless_ws.Base.{
  ℕ, ◌+◌, ◌≡◌, refl, ap, ◌∙◌, true, false, none, some, List, [], ◌∷◌, ◌++◌, if◌then◌else◌, ◌==◌,
  arith, map, ==_refl, Bool-cases, Option-cases, inl, inr,
}
use better_nodejs_vless_ws.Base.Assoc.{map_get, map_delete}
use better_nodejs_vless_ws.Vless.Queue.{clear}
use better_nodejs_vless_ws.Vless.Queue.Laws.{contents}
use better_nodejs_vless_ws.Mux.{
  Mux, Effect, UdpEntry, end_stream_record, destroy_socket, end_tcp, end_udp, end_stream,
}
use better_nodejs_vless_ws.Mux.Drain.{end_streams, close}

end_tcp-head :
    (m : Mux) (id socket : ℕ) (rest : List (ℕ × ℕ))
    → m.tcp ≡ (id, socket) ∷ rest
    → (end_stream m id).0.tcp ≡ rest
unfolding end_stream end_tcp end_udp
end_tcp-head m id socket rest e =
    let got : map_get id m.tcp ≡ some socket = rw e (unfold map_get in rw ==_refl refl) in
    let gone : map_delete id m.tcp ≡ rest = rw e (unfold map_delete in rw ==_refl refl) in
    ground (arith, got, gone)

end_udp-head :
    (m : Mux) (id : ℕ) (entry : UdpEntry) (rest : List (ℕ × UdpEntry))
    → m.udp ≡ (id, entry) ∷ rest
    → (end_stream m id).0.udp ≡ rest
unfolding end_stream end_tcp end_udp
end_udp-head m id entry rest e =
    let got : map_get id m.udp ≡ some entry = rw e (unfold map_get in rw ==_refl refl) in
    let gone : map_delete id m.udp ≡ rest = rw e (unfold map_delete in rw ==_refl refl) in
    ground (arith, got, gone)

end_stream-tcp_nil : (m : Mux) (id : ℕ) → m.tcp ≡ [] → (end_stream m id).0.tcp ≡ []
unfolding end_stream end_tcp end_udp map_delete map_get
end_stream-tcp_nil m id e = ground arith

end_streams-tcp :
    (table : List (ℕ × ℕ)) (m : Mux)
    → m.tcp ≡ table
    → (end_streams m (map (λ e. e.0) table)).0.tcp ≡ []
unfolding end_streams
end_streams-tcp [] m e = e
end_streams-tcp ((id, socket) ∷ rest) m e =
    end_streams-tcp rest (end_stream m id).0 (end_tcp-head m id socket rest e)

end_streams-udp :
    (table : List (ℕ × UdpEntry)) (m : Mux)
    → m.udp ≡ table
    → m.tcp ≡ []
    → ((end_streams m (map (λ e. e.0) table)).0.udp ≡ [])
      × ((end_streams m (map (λ e. e.0) table)).0.tcp ≡ [])
unfolding end_streams
end_streams-udp [] m e t = (e, t)
end_streams-udp ((id, entry) ∷ rest) m e t =
    end_streams-udp rest (end_stream m id).0 (end_udp-head m id entry rest e)
      (end_stream-tcp_nil m id t)

end_streams-closed : (ids : List ℕ) (m : Mux) → (end_streams m ids).0.closed ≡ m.closed
unfolding end_streams end_stream end_tcp end_udp
end_streams-closed [] m = refl
end_streams-closed (id ∷ ids) m = ground (arith, end_streams-closed ids (end_stream m id).0)

-- A sum over effects, each with a weight.
abbrev pub total : (Effect → ℕ) → List Effect → ℕ
total f [] = 0
total f (e ∷ es) = f e + total f es

total-append : (f : Effect → ℕ) (xs ys : List Effect) → total f (xs ++ ys) ≡ total f xs + total f ys
total-append f [] ys = omega arith
total-append f (x ∷ xs) ys = omega (arith, total-append f xs ys)

-- A sum over the sockets of a table.
abbrev pub tcp_sum : (ℕ → ℕ) → List (ℕ × ℕ) → ℕ
tcp_sum w [] = 0
tcp_sum w ((id, socket) ∷ rest) = w socket + tcp_sum w rest

abbrev pub udp_sum : (ℕ → ℕ) → List (ℕ × UdpEntry) → ℕ
udp_sum w [] = 0
udp_sum w ((id, entry) ∷ rest) = w entry.socket + udp_sum w rest

tcp_sum-delete :
    (w : ℕ → ℕ) (id socket : ℕ) (table : List (ℕ × ℕ))
    → map_get id table ≡ some socket
    → tcp_sum w table ≡ w socket + tcp_sum w (map_delete id table)
unfolding map_get map_delete
tcp_sum-delete w id socket [] e = absurd cc
tcp_sum-delete w id socket ((j, s) ∷ rest) e = elim (Bool-cases (j == id)) [
  | inl same ↦
      let this : s ≡ socket = ap (λ o. elim o [ none ↦ s | some x ↦ x ]) (rw same at e) in
      rw (same, this) refl
  | inr other ↦ rw other (omega (arith, tcp_sum-delete w id socket rest (rw other at e)))
]

udp_sum-delete :
    (w : ℕ → ℕ) (id : ℕ) (entry : UdpEntry) (table : List (ℕ × UdpEntry))
    → map_get id table ≡ some entry
    → udp_sum w table ≡ w entry.socket + udp_sum w (map_delete id table)
unfolding map_get map_delete
udp_sum-delete w id entry [] e = absurd cc
udp_sum-delete w id entry ((j, u) ∷ rest) e = elim (Bool-cases (j == id)) [
  | inl same ↦
      let this : u ≡ entry = ap (λ o. elim o [ none ↦ u | some x ↦ x ]) (rw same at e) in
      rw (same, this) refl
  | inr other ↦ rw other (omega (arith, udp_sum-delete w id entry rest (rw other at e)))
]

module _ (f : Effect → ℕ) where
  -- What the end of one socket weighs, and what all the sockets of the tables do.
  abbrev ending : ℕ → ℕ
  ending socket = f (end_stream_record socket) + f (destroy_socket socket)

  abbrev held : Mux → ℕ
  held m = tcp_sum ending m.tcp + udp_sum ending m.udp

  end_tcp_total :
      (m : Mux) (id : ℕ)
      → (total f (end_tcp m id).1 + tcp_sum ending (end_tcp m id).0.tcp ≡ tcp_sum ending m.tcp)
        × ((end_tcp m id).0.udp ≡ m.udp)
  unfolding end_tcp
  end_tcp_total m id = elim (Option-cases (map_get id m.tcp)) [
    | inl e ↦ rw (e, end_tcp) (omega arith, refl)
    | inr (socket, e) ↦
        rw (e, end_tcp) (omega (arith, tcp_sum-delete ending id socket m.tcp e), refl)
  ]

  end_udp_total :
      (m : Mux) (id : ℕ)
      → (total f (end_udp m id).1 + udp_sum ending (end_udp m id).0.udp ≡ udp_sum ending m.udp)
        × ((end_udp m id).0.tcp ≡ m.tcp)
  unfolding end_udp
  end_udp_total m id = elim (Option-cases (map_get id m.udp)) [
    | inl e ↦ rw (e, end_udp) (omega arith, refl)
    | inr (entry, e) ↦ rw (e, end_udp) (omega (arith, udp_sum-delete ending id entry m.udp e), refl)
  ]

  end_stream_total :
      (m : Mux) (id : ℕ) → total f (end_stream m id).1 + held (end_stream m id).0 ≡ held m
  unfolding end_stream
  end_stream_total m id =
      let half : Mux = (end_tcp m id).0 in
      let (tcp_part, udp_kept) = end_tcp_total m id in
      let (udp_part, tcp_kept) = end_udp_total half id in
      omega (
        arith,
        total-append f (end_tcp m id).1 (end_udp half id).1,
        tcp_part,
        udp_part,
        ap (udp_sum ending) udp_kept,
        ap (tcp_sum ending) tcp_kept,
      )

  end_streams_total :
      (ids : List ℕ) (m : Mux) → total f (end_streams m ids).1 + held (end_streams m ids).0 ≡ held m
  unfolding end_streams
  end_streams_total [] m = omega arith
  end_streams_total (id ∷ ids) m =
      let m' : Mux = (end_stream m id).0 in
      omega (
        arith,
        total-append f (end_stream m id).1 (end_streams m' ids).1,
        end_stream_total m id,
        end_streams_total ids m',
      )

  close_total : (m : Mux) → m.closed ≡ false → total f (close m).1 ≡ held m
  unfolding close
  close_total m e =
      let shut : Mux = record m { closed = true } in
      let (half, ended) = end_streams shut (map (λ e. e.0) m.tcp) in
      let done = end_streams-udp half.udp half refl (end_streams-tcp m.tcp shut refl) in
      rw (e, close)
        (omega (
          arith,
          total-append f ended (end_streams half (map (λ e. e.0) half.udp)).1,
          end_streams_total (map (λ e. e.0) m.tcp) shut,
          end_streams_total (map (λ e. e.0) half.udp) half,
          ap (udp_sum ending) done.0,
          ap (tcp_sum ending) done.1,
        ))

-- Is the effect the end of a socket's record in the statistics, or of the socket itself?
abbrev pub is_recorded : ℕ → Effect → ℕ
is_recorded socket (end_stream_record s) = if s == socket then 1 else 0
is_recorded socket e = 0

abbrev pub is_destroyed : ℕ → Effect → ℕ
is_destroyed socket (destroy_socket s) = if s == socket then 1 else 0
is_destroyed socket e = 0

-- How often a socket stands in the tables of a session.
abbrev pub entries : Mux → ℕ → ℕ
entries m socket =
    let here : ℕ → ℕ = λ s. if s == socket then 1 else 0 in tcp_sum here m.tcp + udp_sum here m.udp

tcp_sum-same :
    (v w : ℕ → ℕ) (table : List (ℕ × ℕ)) → ((s : ℕ) → v s ≡ w s) → tcp_sum v table ≡ tcp_sum w table
tcp_sum-same v w [] h = refl
tcp_sum-same v w ((id, s) ∷ rest) h = omega (arith, h s, tcp_sum-same v w rest h)

udp_sum-same :
    (v w : ℕ → ℕ) (table : List (ℕ × UdpEntry))
    → ((s : ℕ) → v s ≡ w s)
    → udp_sum v table ≡ udp_sum w table
udp_sum-same v w [] h = refl
udp_sum-same v w ((id, u) ∷ rest) h = omega (arith, h u.socket, udp_sum-same v w rest h)

close-entries :
    (m : Mux) (socket : ℕ) (f : Effect → ℕ)
    → m.closed ≡ false
    → ((s : ℕ) → ending f s ≡ (if s == socket then 1 else 0))
    → total f (close m).1 ≡ entries m socket
close-entries m socket f e h =
    let here : ℕ → ℕ = λ s. if s == socket then 1 else 0 in
    omega (
      arith,
      close_total f m e,
      tcp_sum-same (ending f) here m.tcp h,
      udp_sum-same (ending f) here m.udp h,
    )

close_state :
    (m : Mux)
    → m.closed ≡ false
    → ((close m).0.tcp ≡ [])
      × ((close m).0.udp ≡ [])
      × (contents (close m).0.queue ≡ [])
      × (close (close m).0 ≡ ((close m).0, []))
unfolding close contents clear
close_state m e =
    let shut : Mux = record m { closed = true } in
    let half : Mux = (end_streams shut (map (λ e. e.0) m.tcp)).0 in
    let done = end_streams-udp half.udp half refl (end_streams-tcp m.tcp shut refl) in
    let closed =
      end_streams-closed (map (λ e. e.0) half.udp) half
      ∙ end_streams-closed (map (λ e. e.0) m.tcp) shut in
    rw e (done.1, done.0, refl, rw closed refl)

-- On a session that is not closed, `close` ends every substream that stands in the tables: each of
-- their sockets is destroyed, and its record in the statistics is ended, as often as it stands
-- there, which for a socket of one substream is once, and no other is. Both tables are empty and the
-- queue is cleared afterwards, and a second `close` does nothing at all.
pub close_lem :
    (m : Mux) (socket : ℕ)
    → m.closed ≡ false
    → (total (is_destroyed socket) (close m).1 ≡ entries m socket)
      × (total (is_recorded socket) (close m).1 ≡ entries m socket)
      × ((close m).0.tcp ≡ [])
      × ((close m).0.udp ≡ [])
      × (contents (close m).0.queue ≡ [])
      × (close (close m).0 ≡ ((close m).0, []))
close_lem m socket e =
    let (no_tcp, no_udp, no_bytes, again) = close_state m e in
    (
      close-entries m socket (is_destroyed socket) e (λ s. omega arith),
      close-entries m socket (is_recorded socket) e (λ s. omega arith),
      no_tcp,
      no_udp,
      no_bytes,
      again,
    )
