-- ===== src/Users/Labels/Accepted.antt =====
-- src/node/users.js: what `parseUserLabels` accepts, and what it reports.
use better_nodejs_vless_ws.Base.{
  ℕ, suc, ◌≤◌, ◌≡◌, refl, true, false, ◌||◌, not, List, [], ◌∷◌, ◌++◌, leb, length, arith,
  length-append, Bool-cases, inl, inr, All, All-append,
}
use better_nodejs_vless_ws.Base.Text.{Text, text_eq}
use better_nodejs_vless_ws.Vless.Address.{Unicode, to_lower, contains}
use better_nodejs_vless_ws.Users.{legacy_label, max_users}
use better_nodejs_vless_ws.Users.Labels.{
  Parsed, is_valid_label, tokens_from, take_token, take_tokens, parse_user_labels,
}

-- A label that may be handed out.
abbrev pub IsMintable : Text → Type 0
IsMintable label = (is_valid_label label ≡ true) × (text_eq label legacy_label ≡ false)

-- No label twice.
abbrev pub IsDistinct : List Text → Type 0
IsDistinct [] = Unit {0}
IsDistinct (label ∷ labels) = (contains labels label ≡ false) × IsDistinct labels

pub record IsAccepted (labels : List Text) : Type 0 where
  pub mintable : All IsMintable labels
  pub distinct : IsDistinct labels
  pub few : length labels ≤ 64

text_eq_sym : (x y : Text) → text_eq x y ≡ text_eq y x
unfolding text_eq
text_eq_sym [] [] = refl
text_eq_sym [] (y ∷ ys) = refl
text_eq_sym (x ∷ xs) [] = refl
text_eq_sym (x ∷ xs) (y ∷ ys) = ground (arith, text_eq_sym xs ys)

contains-append :
    (xs : List Text) (y x : Text) → contains (xs ++ y ∷ []) x ≡ (contains xs x || text_eq y x)
unfolding contains
contains-append [] y x = ground arith
contains-append (z ∷ xs) y x = ground (arith, contains-append xs y x)

IsDistinct-append :
    (xs : List Text) (y : Text) → IsDistinct xs → contains xs y ≡ false → IsDistinct (xs ++ y ∷ [])
unfolding contains
IsDistinct-append [] y d h = (refl, tt)
IsDistinct-append (x ∷ xs) y d h = (
  ground (arith, contains-append xs y x, text_eq_sym x y),
  IsDistinct-append xs y d.1 (ground arith),
)

one_more : (n : ℕ) → leb 64 n ≡ false → suc n ≤ 64
one_more n h = ground arith

take_token-IsAccepted :
    (unicode : Unicode) (p : Parsed) (token : Text)
    → IsAccepted p.labels
    → IsAccepted (take_token unicode p token).labels
unfolding take_token
take_token-IsAccepted unicode p token a =
    let label : Text = to_lower unicode token in
    elim (Bool-cases (not (is_valid_label label) || text_eq label legacy_label)) [
      | inl bad ↦ rw bad a
      | inr good ↦ elim (Bool-cases (contains p.labels label)) [
        | inl seen ↦ rw (good, seen) a
        | inr new ↦ elim (Bool-cases (leb max_users (length p.labels))) [
          | inl full ↦ rw (good, new, full) a
          | inr room ↦
              rw (good, new, room)
                (record {
                  mintable =
                      All-append IsMintable p.labels (label ∷ []) a.mintable
                        ((ground arith, ground arith), tt);
                  distinct = IsDistinct-append p.labels label a.distinct new;
                  few =
                      omega (
                        arith,
                        length-append p.labels (label ∷ []),
                        one_more (length p.labels) room,
                      );
                })
        ]
      ]
    ]

take_tokens-IsAccepted :
    (unicode : Unicode) (p : Parsed) (tokens : List Text)
    → IsAccepted p.labels
    → IsAccepted (take_tokens unicode p tokens).labels
unfolding take_tokens
take_tokens-IsAccepted unicode p [] a = a
take_tokens-IsAccepted unicode p (token ∷ tokens) a =
    take_tokens-IsAccepted unicode (take_token unicode p token) tokens
      (take_token-IsAccepted unicode p token a)

-- Whatever the value of USERS is, every label accepted is valid and is not `owner`, no label is
-- accepted twice, and there are at most 64.
pub parse_user_labels-IsAccepted :
    (unicode : Unicode) (raw : Text) → IsAccepted (parse_user_labels unicode raw).labels
unfolding parse_user_labels
parse_user_labels-IsAccepted unicode raw =
    take_tokens-IsAccepted unicode (record { labels = []; rejected = [] }) (tokens_from [] raw)
      (record { mintable = tt; distinct = tt; few = omega arith })
