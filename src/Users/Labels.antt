-- ===== src/Users/Labels.antt =====
-- src/node/users.js: `isValidLabel` and `parseUserLabels`.
pub mod Accepted
use better_nodejs_vless_ws.Base.{
  ℕ, zero, suc, ◌+◌, Bool, true, false, ◌&&◌, ◌||◌, not, List, [], ◌∷◌, ◌++◌, if◌then◌else◌, ltb,
  leb, ◌==◌, length,
}
use better_nodejs_vless_ws.Base.Text.{Text, codes, text_eq}
use better_nodejs_vless_ws.Vless.Address.{Unicode, to_lower, contains}
use better_nodejs_vless_ws.Users.{legacy_label, max_users}

-- `[a-z0-9]`.
abbrev pub is_label_start : ℕ → Bool
is_label_start c = (leb b'a' c && leb c b'z') || (leb b'0' c && leb c b'9')

-- `[a-z0-9_-]`.
abbrev pub is_label_rest : ℕ → Bool
is_label_rest c = is_label_start c || (c == b'_' || c == b'-')

unfoldable pub all_label_rest : Text → Bool
all_label_rest [] = true
all_label_rest (c ∷ cs) = is_label_rest c && all_label_rest cs

-- `isValidLabel` on a string: `LABEL_RE`, one character and at most 31 more.
unfoldable pub is_valid_label : Text → Bool
unfolding all_label_rest
is_valid_label [] = false
is_valid_label (c ∷ cs) = is_label_start c && (leb (length cs) 31 && all_label_rest cs)

-- `[\s,;]`, the white space of JavaScript included.
abbrev pub is_separator : ℕ → Bool
is_separator c =
    c == b','
    || c == b';'
    || (leb 9 c && leb c 13)
    || c == 32
    || c == 0xa0
    || c == 0x1680
    || (leb 0x2000 c && leb c 0x200a)
    || c == 0x2028
    || c == 0x2029
    || c == 0x202f
    || c == 0x205f
    || c == 0x3000
    || c == 0xfeff

-- The tokens of `split`, those that are empty left out as the loop does; `token` is the one begun.
unfoldable pub tokens_from : Text → Text → List Text
tokens_from [] [] = []
tokens_from (t ∷ ts) [] = (t ∷ ts) ∷ []
tokens_from [] (c ∷ cs) =
    let next = tokens_from [] cs in
    let more = tokens_from (c ∷ []) cs in if is_separator c then next else more
tokens_from (t ∷ ts) (c ∷ cs) =
    let next = tokens_from [] cs in
    let more = tokens_from ((t ∷ ts) ++ c ∷ []) cs in
    if is_separator c then (t ∷ ts) ∷ next else more

pub record Parsed : Type 0 where
  pub labels : List Text
  pub rejected : List Text

-- One round of the loop. `seen` holds the same labels as `labels`.
unfoldable pub take_token : Unicode → Parsed → Text → Parsed
take_token unicode p token =
    let label = to_lower unicode token in
    let refused = record p { rejected = p.rejected ++ token ∷ [] } in
    if not (is_valid_label label) || text_eq label legacy_label
    then refused
    else if contains p.labels label
    then p
    else if leb max_users (length p.labels)
    then refused
    else record p { labels = p.labels ++ label ∷ [] }

unfoldable pub take_tokens : Unicode → Parsed → List Text → Parsed
take_tokens unicode p [] = p
take_tokens unicode p (token ∷ tokens) = take_tokens unicode (take_token unicode p token) tokens

-- `parseUserLabels`; an absent value is the empty text.
unfoldable pub parse_user_labels : Unicode → Text → Parsed
parse_user_labels unicode raw =
    take_tokens unicode (record { labels = []; rejected = [] }) (tokens_from [] raw)
