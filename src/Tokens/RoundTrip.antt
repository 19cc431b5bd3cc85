-- ===== src/Tokens/RoundTrip.antt =====
-- src/node/tokens.js: what is minted is accepted until it expires, and not afterwards.
use better_nodejs_vless_ws.Base.{
  ℕ, suc, ◌+◌, ◌^◌, ◌≤◌, ◌<◌, ◌≡◌, refl, ap, sym, ◌∙◌, false, ◌||◌, some, List, [], ◌∷◌, ◌++◌,
  if◌then◌else◌, ltb, leb, ◌==◌, length, take, drop, arith, append_assoc, length-append,
  take-append_exact, drop_after,
}
use better_nodejs_vless_ws.Base.Text.{
  Text, codes, text_eq, text_eq_refl, decimal, decimal_lacks, length-decimal-le,
}
use better_nodejs_vless_ws.Base.Strings.{
  split_on, Lacks, last_index_of-append, split_on-append, split_on-Lacks,
}
use better_nodejs_vless_ws.Tokens.{
  Crypto, natural, stale, valid, invite_tag, sign, cut_at, split_mac, constant_time_equal,
  verify_invite, invite_fields, judge, mint_invite, invite_body,
}

-- A body with a MAC behind it is cut where it was joined.
split_mac-append :
    (body mac : Text) (max_len : ℕ)
    → 1 ≤ length body
    → 1 ≤ length mac
    → Lacks b'.' mac
    → 8 ≤ length body + 1 + length mac
    → length body + 1 + length mac ≤ max_len
    → split_mac (some (body ++ (b'.' ∷ mac))) max_len ≡ some (record { body = body; mac = mac })
unfolding split_mac cut_at
split_mac-append [] mac max_len hb hm clean lo hi = absurd (omega arith)
split_mac-append (c ∷ cs) mac max_len hb hm clean lo hi =
    let body : Text = c ∷ cs in
    let token : Text = body ++ (b'.' ∷ mac) in
    let size : length token ≡ length body + 1 + length mac =
      omega (arith, length-append body (b'.' ∷ mac)) in
    let front : take (length body) token ≡ body = take-append_exact body (b'.' ∷ mac) in
    let back : drop (suc (length body)) token ≡ mac =
      ap (drop (suc (length body))) (sym (append_assoc body (b'.' ∷ []) mac))
      ∙ drop_after (suc (length body)) (body ++ (b'.' ∷ [])) mac
          (omega (arith, length-append body (b'.' ∷ []))) in
    let inside : ((suc (length cs) + 1) == length token) ≡ false = ground (arith, size) in
    let fits : (ltb (length token) 8 || ltb max_len (length token)) ≡ false =
      ground (arith, size) in
    rw (fits, last_index_of-append b'.' body mac clean) (rw (inside, front, back) refl)

split_on-body :
    (exp : ℕ) (label nonce : Text)
    → Lacks b'.' label
    → Lacks b'.' nonce
    → split_on b'.' (invite_body exp label nonce) ≡ codes "1" ∷ decimal exp ∷ label ∷ nonce ∷ []
split_on-body exp label nonce l n =
    split_on-append b'.' (codes "1") (decimal exp ++ (b'.' ∷ (label ++ (b'.' ∷ nonce)))) (refl, tt)
    ∙ ap (◌∷◌ (codes "1")) (
        split_on-append b'.' (decimal exp) (label ++ (b'.' ∷ nonce))
          (decimal_lacks exp b'.' (omega arith))
        ∙ ap (◌∷◌ (decimal exp))
            (split_on-append b'.' label nonce l ∙ ap (◌∷◌ label) (split_on-Lacks b'.' nonce n)))

invite_fields-signed :
    (crypto : Crypto) (exp : ℕ) (label nonce : Text) (now : ℕ)
    → 1 ≤ length label
    → 1 ≤ length nonce
    → crypto.number (decimal exp) ≡ natural exp
    → invite_fields crypto (codes "1" ∷ decimal exp ∷ label ∷ nonce ∷ []) now
      ≡ (if leb exp now then stale label nonce else valid label exp nonce)
unfolding invite_fields judge text_eq
invite_fields-signed crypto exp [] nonce now hl hn e = absurd (omega arith)
invite_fields-signed crypto exp (l ∷ ls) [] now hl hn e = absurd (omega arith)
invite_fields-signed crypto exp (l ∷ ls) (n ∷ ns) now hl hn e = rw e refl

-- What the platform promises: sixteen bytes as base64url are 22 characters without a dot.
pub record IsPlatform (crypto : Crypto) : Type 0 where
  pub mac_size : (key : List ℕ) (tag body : Text) → length (sign crypto key tag body) ≡ 22
  pub mac_lacks : (key : List ℕ) (tag body : Text) → Lacks b'.' (sign crypto key tag body)

-- An invite that was minted is valid, with its label, expiry and nonce, until it expires, and stale
-- from then on; it is never taken for forged. The label has at most 32 characters and the nonce at
-- most 64, both at least one and no dot, the expiry is below 2 ^ 53, and the platform gives MACs
-- of 22 characters without a dot and reads the expiry's numeral back as that number.
pub verify_invite-mint_invite :
    (crypto : Crypto) (platform : IsPlatform crypto) (key : List ℕ) (label nonce : Text)
    (ttl now later : ℕ)
    → Lacks b'.' label
    → Lacks b'.' nonce
    → 1 ≤ length label
    → 1 ≤ length nonce
    → length label ≤ 32
    → length nonce ≤ 64
    → now + ttl < 2 ^ 53
    → crypto.number (decimal (now + ttl)) ≡ natural (now + ttl)
    → verify_invite crypto key (some (mint_invite crypto key label ttl nonce now).token) later
      ≡ (if leb (now + ttl) later then stale label nonce else valid label (now + ttl) nonce)
unfolding verify_invite mint_invite constant_time_equal
verify_invite-mint_invite crypto platform key label nonce ttl now later l n hl hn sl sn safe reads =
    let exp : ℕ = now + ttl in
    let body : Text = invite_body exp label nonce in
    let mac : Text = sign crypto key invite_tag body in
    let size : length body ≡ 2 + length (decimal exp) + 1 + length label + 1 + length nonce =
      omega (
        arith,
        length-append (decimal exp) (b'.' ∷ (label ++ (b'.' ∷ nonce))),
        length-append label (b'.' ∷ nonce),
      ) in
    let cut : split_mac (some (body ++ (b'.' ∷ mac))) 200
        ≡ some (record { body = body; mac = mac }) =
      split_mac-append body mac 200 (omega arith)
        (omega (arith, platform.mac_size key invite_tag body))
        (platform.mac_lacks key invite_tag body)
        (omega (arith, platform.mac_size key invite_tag body))
        (omega (arith, size, length-decimal-le exp, platform.mac_size key invite_tag body)) in
    rw (cut, verify_invite)
      (rw (text_eq_refl mac, split_on-body exp label nonce l n)
        (invite_fields-signed crypto exp label nonce later hl hn reads))
