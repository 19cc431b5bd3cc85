-- ===== src/Tokens/Signed.antt =====
-- src/node/tokens.js: nothing that is not signed for the purpose is accepted.
use better_nodejs_vless_ws.Base.{
  ℕ, zero, suc, ◌+◌, ◌≡◌, ◌≢◌, refl, ap, ◌∙◌, true, ◌||◌, Option, none, some, List, [], ◌∷◌, ◌++◌,
  ltb, ◌==◌, length, take, arith, Bool-cases, Option-cases, inl, inr,
}
use better_nodejs_vless_ws.Base.Text.{Text, codes, text_eq, text_eq_sound}
use better_nodejs_vless_ws.Base.Strings.{last_index_of, split_on, IsCut, last_index_of-IsCut}
use better_nodejs_vless_ws.Tokens.{
  Crypto, Parts, forged, session_tag, invite_tag, sign, cut_at, split_mac, verify_session,
  constant_time_equal, verify_invite, session_fields, invite_fields,
}

-- The body, a dot and the MAC.
abbrev pub joined : Parts → Text
joined parts = parts.body ++ (b'.' ∷ parts.mac)

cut_at-joined :
    (token : Text) (o : Option ℕ) (parts : Parts)
    → IsCut b'.' token o
    → cut_at token o ≡ some parts
    → token ≡ joined parts
unfolding cut_at
cut_at-joined token none parts h e = cc
cut_at-joined token (some zero) parts h e = cc
cut_at-joined token (some (suc i)) parts h e = elim (Bool-cases (suc i + 1 == length token)) [
  | inl last ↦ cc (rw last at e)
  | inr inside ↦ h ∙ ap (λ o. elim o [ none ↦ token | some p ↦ joined p ]) (rw inside at e)
]

split_mac-joined :
    (token : Text) (max_len : ℕ) (parts : Parts)
    → split_mac (some token) max_len ≡ some parts
    → token ≡ joined parts
unfolding split_mac
split_mac-joined token max_len parts e =
    elim (Bool-cases (ltb (length token) 8 || ltb max_len (length token))) [
      | inl out ↦ cc (rw out at e)
      | inr fits ↦
          cut_at-joined token (last_index_of b'.' token) parts (last_index_of-IsCut b'.' token)
            (rw fits at e)
    ]

-- A token that `verifyInvite` does not call forged, be it stale or valid, was signed: it is a body, a dot
-- and the MAC of that body under this key with the tag for invites, and what is answered comes from
-- the fields of that body alone.
pub verify_invite_signed :
    (crypto : Crypto) (key : List ℕ) (token : Text) (now : ℕ)
    → verify_invite crypto key (some token) now ≢ forged
    → (body : Text) × (token ≡ body ++ (b'.' ∷ sign crypto key invite_tag body))
      × (verify_invite crypto key (some token) now ≡ invite_fields crypto (split_on b'.' body) now)
unfolding verify_invite constant_time_equal
verify_invite_signed crypto key token now accepted =
    elim (Option-cases (split_mac (some token) 200)) [
      | inl e ↦ absurd (accepted (rw (e, verify_invite) refl))
      | inr (parts, e) ↦
          elim (Bool-cases (text_eq parts.mac (sign crypto key invite_tag parts.body))) [
            | inr differs ↦ absurd (accepted (rw (e, verify_invite) (rw differs refl)))
            | inl same ↦ (
              parts.body,
              split_mac-joined token 200 parts e
                  ∙ ap (λ mac. parts.body ++ (b'.' ∷ mac))
                      (text_eq_sound parts.mac (sign crypto key invite_tag parts.body) same),
              rw (e, verify_invite) (rw same refl),
            )
          ]
    ]

-- The same of a session that `verifySession` accepts, with the tag for sessions.
pub verify_session_signed :
    (crypto : Crypto) (key : List ℕ) (value : Text) (now : ℕ)
    → verify_session crypto key (some value) now ≡ true
    → (body : Text) × (value ≡ body ++ (b'.' ∷ sign crypto key session_tag body))
      × (session_fields crypto (split_on b'.' body) now ≡ true)
unfolding verify_session constant_time_equal
verify_session_signed crypto key value now accepted =
    elim (Option-cases (split_mac (some value) 128)) [
      | inl e ↦ cc (rw (e, verify_session) at accepted)
      | inr (parts, e) ↦
          elim (Bool-cases (text_eq parts.mac (sign crypto key session_tag parts.body))) [
            | inr differs ↦ cc (rw differs at (rw (e, verify_session) at accepted))
            | inl same ↦ (
              parts.body,
              split_mac-joined value 128 parts e
                  ∙ ap (λ mac. parts.body ++ (b'.' ∷ mac))
                      (text_eq_sound parts.mac (sign crypto key session_tag parts.body) same),
              rw same at (rw (e, verify_session) at accepted),
            )
          ]
    ]

-- What fits the limit of a session fits that of an invite, and is cut alike.
split_mac-wider :
    (token : Text) (parts : Parts)
    → split_mac (some token) 128 ≡ some parts
    → split_mac (some token) 200 ≡ some parts
unfolding split_mac
split_mac-wider token parts e = ground arith

-- A session has two fields, an invite has four.
session_fields-invite_fields :
    (crypto : Crypto) (fields : List Text) (now later : ℕ)
    → session_fields crypto fields now ≡ true
    → invite_fields crypto fields later ≡ forged
unfolding session_fields invite_fields
session_fields-invite_fields crypto [] now later h = refl
session_fields-invite_fields crypto (a ∷ []) now later h = refl
session_fields-invite_fields crypto (a ∷ b ∷ []) now later h = refl
session_fields-invite_fields crypto (a ∷ b ∷ c ∷ fields) now later h = cc h

-- Whatever the second key, what has the fields of a session is no invite.
session_is_no_invite :
    (crypto : Crypto) (key : List ℕ) (token : Text) (parts : Parts) (now later : ℕ)
    → split_mac (some token) 128 ≡ some parts
    → session_fields crypto (split_on b'.' parts.body) now ≡ true
    → verify_invite crypto key (some token) later ≡ forged
unfolding verify_invite constant_time_equal
session_is_no_invite crypto key token parts now later e fields =
    let other = session_fields-invite_fields crypto (split_on b'.' parts.body) now later fields in
    rw (split_mac-wider token parts e, verify_invite) (ground (arith, other))

-- A session that `verifySession` accepts is a body, a dot and a MAC made for sessions: the first 16
-- bytes, in base64url, of the HMAC under this key of the tag `adm-session-v1`, a line feed and the
-- body, whose fields are those of a session. And it is no invite: under any key, this one or
-- another, and at any time `verifyInvite` calls the same text forged.
pub verify_session_apart :
    (crypto : Crypto) (key other_key : List ℕ) (value : Text) (now later : ℕ)
    → verify_session crypto key (some value) now ≡ true
    → ((body : Text) × (value
          ≡ body
            ++ (b'.'
                ∷ crypto.base64url
                    (take 16 (crypto.hmac key (codes "adm-session-v1" ++ (10 ∷ body))))))
        × (session_fields crypto (split_on b'.' body) now ≡ true))
      × (verify_invite crypto other_key (some value) later ≡ forged)
unfolding verify_session sign constant_time_equal
verify_session_apart crypto key other_key value now later accepted =
    elim (Option-cases (split_mac (some value) 128)) [
      | inl e ↦ cc (rw (e, verify_session) at accepted)
      | inr (parts, e) ↦
          elim (Bool-cases (text_eq parts.mac (sign crypto key session_tag parts.body))) [
            | inr differs ↦ cc (rw differs at (rw (e, verify_session) at accepted))
            | inl same ↦
                let fields = rw same at (rw (e, verify_session) at accepted) in
                (
                  verify_session_signed crypto key value now accepted,
                  session_is_no_invite crypto other_key value parts now later e fields,
                )
          ]
    ]
