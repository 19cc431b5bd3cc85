-- ===== src/Tests/Tokens.antt =====
-- Runs of src/node/tokens.js, with a platform whose MACs are all alike.
use better_nodejs_vless_ws.Base.{
  ℕ, ◌+◌, ◌≡◌, ◌≢◌, refl, some, List, [], ◌∷◌, ◌++◌, if◌then◌else◌, leb, true, take, arith,
}
use better_nodejs_vless_ws.Base.Text.{Text, codes, decimal, text_eq}
use better_nodejs_vless_ws.Base.Strings.{lacks, lacks_of, split_on, last_index_of}
use better_nodejs_vless_ws.Tokens.{
  natural, forged, stale, valid, invite_tag, sign, mint_session, verify_session, session_fields,
  split_mac, cut_at, constant_time_equal, is_later, mint_invite, verify_invite, invite_fields,
}
use better_nodejs_vless_ws.Tokens.Signed.{verify_invite_signed, verify_session_apart}
use better_nodejs_vless_ws.Tokens.RoundTrip.{IsPlatform, verify_invite-mint_invite}
use better_nodejs_vless_ws.Tests.Data.{same_macs, read_decimal}

same_macs-IsPlatform : IsPlatform same_macs
unfolding sign lacks
same_macs-IsPlatform = record {
  mac_size = λ key tag body. refl;
  mac_lacks = λ key tag body. lacks_of b'.' (codes "AAAAAAAAAAAAAAAAAAAAAA") refl;
}

abbrev some_master : List ℕ
some_master = 1 ∷ 2 ∷ 3 ∷ []

reads_expiry : same_macs.number (decimal (1000 + 900)) ≡ natural (1000 + 900)
unfolding decimal read_decimal
reads_expiry = refl

verify_invite-mint_invite_example :
    verify_invite same_macs some_master
      (some (mint_invite same_macs some_master (codes "ann") 900 (codes "n0nce") 1000).token)
      1200
    ≡ (if leb (1000 + 900) 1200
        then stale (codes "ann") (codes "n0nce")
        else valid (codes "ann") (1000 + 900) (codes "n0nce"))
unfolding lacks
verify_invite-mint_invite_example =
    verify_invite-mint_invite same_macs same_macs-IsPlatform some_master (codes "ann")
      (codes "n0nce") 900 1000 1200 (lacks_of b'.' (codes "ann") refl)
      (lacks_of b'.' (codes "n0nce") refl) (omega arith) (omega arith) (omega arith) (omega arith)
      (omega arith) reads_expiry

abbrev some_invite : Text
some_invite = (mint_invite same_macs some_master (codes "ann") 900 (codes "n0nce") 1000).token

-- It has expired, but it is not forged.
some_invite_stale :
    verify_invite same_macs some_master (some some_invite) 2000
    ≡ stale (codes "ann") (codes "n0nce")
unfolding lacks
some_invite_stale =
    verify_invite-mint_invite same_macs same_macs-IsPlatform some_master (codes "ann")
      (codes "n0nce") 900 1000 2000 (lacks_of b'.' (codes "ann") refl)
      (lacks_of b'.' (codes "n0nce") refl) (omega arith) (omega arith) (omega arith) (omega arith)
      (omega arith) reads_expiry

some_invite_accepted : verify_invite same_macs some_master (some some_invite) 2000 ≢ forged
some_invite_accepted e = cc (some_invite_stale, e)

verify_invite_signed_example :
    (body : Text) × (some_invite ≡ body ++ (b'.' ∷ sign same_macs some_master invite_tag body))
    × (verify_invite same_macs some_master (some some_invite) 2000
        ≡ invite_fields same_macs (split_on b'.' body) 2000)
verify_invite_signed_example =
    verify_invite_signed same_macs some_master some_invite 2000 some_invite_accepted

abbrev some_session : Text
some_session = mint_session same_macs some_master 900 1000

some_session_accepted : verify_session same_macs some_master (some some_session) 1200 ≡ true
unfolding verify_session decimal read_decimal split_mac mint_session sign cut_at last_index_of
    constant_time_equal text_eq session_fields split_on is_later
some_session_accepted = refl

verify_session_apart_example :
    ((body : Text) × (some_session
        ≡ body
          ++ (b'.'
              ∷ same_macs.base64url
                  (take 16 (same_macs.hmac some_master (codes "adm-session-v1" ++ (10 ∷ body))))))
      × (session_fields same_macs (split_on b'.' body) 1200 ≡ true))
    × (verify_invite same_macs (4 ∷ []) (some some_session) 1300 ≡ forged)
verify_session_apart_example =
    verify_session_apart same_macs some_master (4 ∷ []) some_session 1200 1300 some_session_accepted
