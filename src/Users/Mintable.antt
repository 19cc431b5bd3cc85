-- ===== src/Users/Mintable.antt =====
-- src/node/users.js: the map `current`, and the credential that an invite may hand out.
use better_nodejs_vless_ws.Base.{Option, none, some, List, [], ◌∷◌, ℕ, if◌then◌else◌}
use better_nodejs_vless_ws.Base.Text.{Text, text_eq}
use better_nodejs_vless_ws.Base.Strings.{text_get, text_set}
use better_nodejs_vless_ws.Users.{Credential, legacy_label, derive_user, usable}

-- The loop over the labels: only the first usable secret is the current one.
unfoldable pub set_current :
    (Text → Text → List ℕ)
    → List Text
    → List Text
    → List (Text × Credential)
    → List (Text × Credential)
set_current hmac [] labels current = current
set_current hmac (secret ∷ older) [] current = current
set_current hmac (secret ∷ older) (label ∷ labels) current =
    set_current hmac (secret ∷ older) labels
      (text_set label (derive_user hmac secret label) current)

abbrev pub with_owner : Option (List ℕ) → List (Text × Credential)
with_owner none = []
with_owner (some owner) = (legacy_label, record { label = legacy_label; bytes = owner }) ∷ []

-- `current` as `createUserRegistry` leaves it.
unfoldable pub create_current :
    (Text → Text → List ℕ) → Option (List ℕ) → List Text → List Text → List (Text × Credential)
create_current hmac owner secrets labels =
    set_current hmac (usable secrets) labels (with_owner owner)

-- `mintable`.
unfoldable pub mintable : List (Text × Credential) → Text → Option Credential
mintable current label = if text_eq label legacy_label then none else text_get label current
