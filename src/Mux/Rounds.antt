-- ===== src/Mux/Rounds.antt =====
-- src/node/mux.js, `drain`: the loop ends by itself.
use better_nodejs_vless_ws.Base.{ℕ, ◌≡◌, refl, ◌⊎◌, Option, List, inl, inr}
use better_nodejs_vless_ws.Vless.Queue.{ByteQueue}
use better_nodejs_vless_ws.Mux.{Mux}
use better_nodejs_vless_ws.Mux.Drain.{Look, waiting, malformed, frame}

pub Look-cases :
    (l : Look)
    → (l ≡ waiting)
      ⊎ (((rest : ByteQueue) × (l ≡ malformed rest))
          ⊎ ((meta : List ℕ) × (bytes : Option (List ℕ)) × (rest : ByteQueue) × (l
                ≡ frame meta bytes rest)))
Look-cases waiting = inl refl
Look-cases (malformed rest) = inr (inl (rest, refl))
Look-cases (frame meta bytes rest) = inr (inr (meta, bytes, rest, refl))
