-- ===== src/Tests/Users.antt =====
-- Runs of src/node/users.js.
use better_nodejs_vless_ws.Base.{ℕ, ◌≡◌, refl, some, List, [], ◌∷◌, ◌++◌}
use better_nodejs_vless_ws.Base.Text.{Text, codes, text_eq}
use better_nodejs_vless_ws.Vless.Address.{contains, to_lower}
use better_nodejs_vless_ws.Users.{create_buckets, registered, first_match, lookup}
use better_nodejs_vless_ws.Users.Lookup.{lookup-create_buckets}
use better_nodejs_vless_ws.Users.Labels.{
  is_valid_label, tokens_from, take_token, take_tokens, parse_user_labels,
}
use better_nodejs_vless_ws.Users.Labels.Accepted.{IsAccepted, parse_user_labels-IsAccepted}
use better_nodejs_vless_ws.Tests.Data.{plain, some_uuid}

-- A function in the place of HMAC-SHA256.
abbrev some_hmac : Text → Text → List ℕ
some_hmac secret text = secret ++ text

lookup-create_buckets_example :
    lookup
      (create_buckets some_hmac (some some_uuid) (codes "s1" ∷ codes "s0" ∷ []) (codes "ann" ∷ []))
      (0 ∷ some_uuid)
      1
    ≡ first_match
        (registered some_hmac (some some_uuid) (codes "s1" ∷ codes "s0" ∷ []) (codes "ann" ∷ []))
        (0 ∷ some_uuid)
        1
lookup-create_buckets_example =
    lookup-create_buckets some_hmac (some some_uuid) (codes "s1" ∷ codes "s0" ∷ [])
      (codes "ann" ∷ []) (0 ∷ some_uuid) 1

parse_user_labels-IsAccepted_example :
    IsAccepted (parse_user_labels plain (codes "Ann, bob;ann owner -x")).labels
parse_user_labels-IsAccepted_example =
    parse_user_labels-IsAccepted plain (codes "Ann, bob;ann owner -x")

accepted_example :
    (parse_user_labels plain (codes "Ann, bob;ann owner -x")).labels
    ≡ codes "ann" ∷ codes "bob" ∷ []
unfolding parse_user_labels tokens_from take_tokens take_token is_valid_label contains to_lower
    text_eq
accepted_example = refl
