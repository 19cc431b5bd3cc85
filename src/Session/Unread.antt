-- ===== src/Session/Unread.antt =====
-- src/node/session.js: a frame is handled without a look at the bytes behind it.
use better_nodejs_vless_ws.Base.{
  ℕ, ◌≡◌, refl, ap, ◌∙◌, Bool, true, false, ◌&&◌, not, Option, none, some, List, [], if◌then◌else◌,
  ◌==◌, arith, if_either, inl, inr, ◌⊎◌,
}
use better_nodejs_vless_ws.Vless.Address.{Unicode}
use better_nodejs_vless_ws.Vless.Queue.{empty_queue, push, flatten, clear}
use better_nodejs_vless_ws.Vless.Header.{Auth, Parsed, need, fail, ok, parse_vless_header}
use better_nodejs_vless_ws.WsFrame.{Frame}
use better_nodejs_vless_ws.Session.{Session, Effect, destroy, finish, serve_decoy}
use better_nodejs_vless_ws.Session.Tunnel.{
  start_tunnel, on_parsed, on_message, reassemble, on_frame,
}

-- A session without what it has not read.
abbrev pub forget : Session → Session
forget s = record s { inbound = empty_queue }

destroy-forget : (s : Session) → destroy (forget s) ≡ (forget (destroy s).0, (destroy s).1)
unfolding destroy clear
destroy-forget s = ground arith

abbrev forgotten : Session × List Effect → Session × List Effect
forgotten r = (forget r.0, r.1)

reassemble-forget :
    (s : Session) (f : Frame)
    → reassemble (forget s) f ≡ (forget (reassemble s f).0, (reassemble s f).1)
unfolding reassemble
reassemble-forget s f = ground arith

abbrev pub forgotten_step : Session × List Effect × Bool → Session × List Effect × Bool
forgotten_step r = (forget r.0, r.1, r.2)

-- A function that forgets, of both branches of a test.
if_lem {ℓ} :
    {A : Type ℓ} (g : A → A) (b : Bool) {x' y' x y : A}
    → x' ≡ g x
    → y' ≡ g y
    → (if b then x' else y') ≡ g (if b then x else y)
if_lem g true h k = h
if_lem g false h k = k

-- Dead, or with the same bytes left to read.
abbrev pub Keeps : Session → Session → Type 0
Keeps s s' = (s'.dead ≡ true) ⊎ (s'.inbound ≡ s.inbound)

destroy-dead : (s : Session) → (destroy s).0.dead ≡ true
unfolding destroy
destroy-dead s = ground arith

reassemble-Keeps : (s : Session) (f : Frame) → (reassemble s f).0.inbound ≡ s.inbound
unfolding reassemble
reassemble-Keeps s f = ground arith

module _ (unicode : Unicode) (auth : Auth) where
  on_parsed-forget :
      (s : Session) (p : Parsed) (buf : List ℕ)
      → on_parsed (forget s) p buf ≡ (forget (on_parsed s p buf).0, (on_parsed s p buf).1)
  unfolding on_parsed start_tunnel serve_decoy finish destroy clear
  on_parsed-forget s need buf = refl
  on_parsed-forget s (fail reason) buf = ground arith
  on_parsed-forget s (ok r) buf = refl

  on_message-forget :
      (s : Session) (bytes : List ℕ)
      → on_message unicode auth (forget s) bytes ≡ forgotten (on_message unicode auth s bytes)
  unfolding on_message
  on_message-forget s bytes =
      let (buf, flat) = flatten (push s.message bytes) in
      if_lem forgotten s.vless_started refl
        (on_parsed-forget (record s { message = flat }) (parse_vless_header unicode auth buf) buf)

  abbrev deliver : Session → Option (List ℕ) → Session × List Effect
  deliver s none = (s, [])
  deliver s (some message) = on_message unicode auth s message

  deliver-forget :
      (s : Session) (whole : Option (List ℕ))
      → deliver (forget s) whole ≡ forgotten (deliver s whole)
  deliver-forget s none = refl
  deliver-forget s (some message) = on_message-forget s message

  -- A frame is handled without a look at what is not read yet.
  pub on_frame-forget :
      (s : Session) (f : Frame)
      → on_frame unicode auth (forget s) f ≡ forgotten_step (on_frame unicode auth s f)
  unfolding on_frame
  on_frame-forget s f =
      let (s', whole) = reassemble s f in
      let go : Session × Option (List ℕ) → Session × List Effect × Bool = λ r.
        (let d : Session × List Effect = elim r.1 [
          | none ↦ (r.0, [])
          | some message ↦ on_message unicode auth r.0 message
        ] in
          (d.0, d.1, true)) in
      if_lem forgotten_step (f.opcode == 8) (ap (λ r. (r.0, r.1, false)) (destroy-forget s)) (
        if_lem forgotten_step (f.opcode == 9) refl (
          if_lem forgotten_step (not (f.opcode == 0) && not (f.opcode == 1) && not (f.opcode == 2))
            refl
            (ap go (reassemble-forget s f) ∙ ap (λ d. (d.0, d.1, true)) (deliver-forget s' whole))))

  on_parsed-Keeps : (s : Session) (p : Parsed) (buf : List ℕ) → Keeps s (on_parsed s p buf).0
  unfolding on_parsed start_tunnel serve_decoy finish
  on_parsed-Keeps s need buf = inr refl
  on_parsed-Keeps s (fail reason) buf = inl (destroy-dead (record s { message = clear s.message }))
  on_parsed-Keeps s (ok r) buf = inr refl

  on_message-Keeps : (s : Session) (bytes : List ℕ) → Keeps s (on_message unicode auth s bytes).0
  unfolding on_message
  on_message-Keeps s bytes =
      let (buf, flat) = flatten (push s.message bytes) in
      let P : Session × List Effect → Type 0 = λ r. Keeps s r.0 in
      if_either P s.vless_started (inr refl)
        (on_parsed-Keeps (record s { message = flat }) (parse_vless_header unicode auth buf) buf)

  deliver-Keeps : (s : Session) (whole : Option (List ℕ)) → Keeps s (deliver s whole).0
  deliver-Keeps s none = inr refl
  deliver-Keeps s (some message) = on_message-Keeps s message

  pub on_frame-Keeps : (s : Session) (f : Frame) → Keeps s (on_frame unicode auth s f).0
  unfolding on_frame
  on_frame-Keeps s f =
      let (s', whole) = reassemble s f in
      let P : Session × List Effect × Bool → Type 0 = λ r. Keeps s r.0 in
      let same : s'.inbound ≡ s.inbound = reassemble-Keeps s f in
      if_either P (f.opcode == 8) (inl (destroy-dead s)) (
        if_either P (f.opcode == 9) (inr refl) (
          if_either P (not (f.opcode == 0) && not (f.opcode == 1) && not (f.opcode == 2)) (inr refl)
            (elim (deliver-Keeps s' whole) [ inl dead ↦ inl dead | inr kept ↦ inr (kept ∙ same) ])))
