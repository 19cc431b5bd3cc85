-- ===== src/Mux/Meta.antt =====
-- src/node/mux.js: the meta blocks that the server writes.
use better_nodejs_vless_ws.Base.{ℕ, List, [], ◌∷◌, ◌%◌}
use better_nodejs_vless_ws.Base.Bytes.{shr32}

-- `metaKeep`.
unfoldable pub meta_keep : ℕ → List ℕ
meta_keep id = shr32 id 8 % 256 ∷ id % 256 ∷ 2 ∷ 1 ∷ []

-- `metaEnd`.
unfoldable pub meta_end : ℕ → List ℕ
meta_end id = shr32 id 8 % 256 ∷ id % 256 ∷ 3 ∷ 0 ∷ []
