-- ===== src/Vless/Address/Blocked.antt =====
-- What `isBlockedDomain` of src/vless.js blocks: the listed domains and everything below them.
use better_nodejs_vless_ws.Base.{
  ℕ, ◌-◌, ◌≡◌, refl, sym, ap, ◌∙◌, ◌≢◌, ◌↔◌, ◌⊎◌, inl, inr, true, List, [], ◌∷◌, ◌++◌, arith,
  length, take, drop, length-append, drop-append_exact, take-append-drop, Bool-cases,
}
use better_nodejs_vless_ws.Base.Text.{Text, codes, text_eq, text_eq_sound, text_eq_refl, ends_with}
use better_nodejs_vless_ws.Vless.Address.{
  Unicode, to_lower, blocked_domains, contains, below_any, is_blocked_domain,
}

-- The host is the domain, or one below it: some labels, a dot and the domain.
abbrev pub IsUnder : Text → Text → Type 0
IsUnder domain host = (host ≡ domain) ⊎ ((labels : Text) × (host ≡ labels ++ (codes "." ++ domain)))

abbrev pub IsUnderAny : List Text → Text → Type 0
IsUnderAny [] host = ⊥
IsUnderAny (d ∷ ds) host = IsUnder d host ⊎ IsUnderAny ds host

ends_with_sound : (s t : Text) → ends_with s t ≡ true → (front : Text) × (s ≡ front ++ t)
unfolding ends_with
ends_with_sound s t h =
    let k : ℕ = length s - length t in
    (
      take k s,
      sym (take-append-drop k s) ∙ ap (◌++◌ (take k s)) (text_eq_sound (drop k s) t (ground arith)),
    )

ends_with_complete : (front t : Text) → ends_with (front ++ t) t ≡ true
unfolding ends_with
ends_with_complete front t =
    let e : length (front ++ t) - length t ≡ length front = omega (arith, length-append front t) in
    rw (e, drop-append_exact, text_eq_refl) (ground (arith, length-append front t))

-- Being one of the domains, or below one of them.
abbrev IsListed : List Text → Text → Type 0
IsListed [] host = ⊥
IsListed (d ∷ ds) host = (host ≡ d) ⊎ IsListed ds host

abbrev IsBelow : List Text → Text → Type 0
IsBelow [] host = ⊥
IsBelow (d ∷ ds) host = ((labels : Text) × (host ≡ labels ++ (codes "." ++ d))) ⊎ IsBelow ds host

contains_sound : (ds : List Text) (host : Text) → contains ds host ≡ true → IsListed ds host
unfolding contains
contains_sound [] host h = cc
contains_sound (d ∷ ds) host h = elim (Bool-cases (text_eq d host)) [
  | inl e ↦ inl (sym (text_eq_sound d host e))
  | inr e ↦ inr (contains_sound ds host (rw e at h))
]

contains_complete : (ds : List Text) (host : Text) → IsListed ds host → contains ds host ≡ true
unfolding contains
contains_complete [] host h = absurd h
contains_complete (d ∷ ds) host (inl e) = rw (e, text_eq_refl)
contains_complete (d ∷ ds) host (inr h) = ground (arith, contains_complete ds host h)

below_any_sound : (ds : List Text) (host : Text) → below_any ds host ≡ true → IsBelow ds host
unfolding below_any
below_any_sound [] host h = cc
below_any_sound (d ∷ ds) host h = elim (Bool-cases (ends_with host (codes "." ++ d))) [
  | inl e ↦ inl (ends_with_sound host _ e)
  | inr e ↦ inr (below_any_sound ds host (rw e at h))
]

below_any_complete : (ds : List Text) (host : Text) → IsBelow ds host → below_any ds host ≡ true
unfolding below_any
below_any_complete [] host h = absurd h
below_any_complete (d ∷ ds) host (inl (labels, e)) =
    rw (e, ends_with_complete labels (codes "." ++ d))
below_any_complete (d ∷ ds) host (inr h) = ground (arith, below_any_complete ds host h)

under-listed : (ds : List Text) (host : Text) → IsListed ds host → IsUnderAny ds host
under-listed [] host h = h
under-listed (d ∷ ds) host (inl e) = inl (inl e)
under-listed (d ∷ ds) host (inr h) = inr (under-listed ds host h)

under-below : (ds : List Text) (host : Text) → IsBelow ds host → IsUnderAny ds host
under-below [] host h = h
under-below (d ∷ ds) host (inl e) = inl (inr e)
under-below (d ∷ ds) host (inr h) = inr (under-below ds host h)

under_cases :
    (ds : List Text) (host : Text) → IsUnderAny ds host → IsListed ds host ⊎ IsBelow ds host
under_cases [] host h = absurd h
under_cases (d ∷ ds) host (inl (inl e)) = inl (inl e)
under_cases (d ∷ ds) host (inl (inr e)) = inr (inl e)
under_cases (d ∷ ds) host (inr h) = elim (under_cases ds host h) [
  | inl k ↦ inl (inr k)
  | inr k ↦ inr (inr k)
]

blocked_sound :
    (unicode : Unicode) (host : Text)
    → is_blocked_domain unicode host ≡ true
    → (host ≢ []) × IsUnderAny blocked_domains (to_lower unicode host)
unfolding is_blocked_domain
blocked_sound unicode [] h = cc
blocked_sound unicode (c ∷ cs) h =
    let lower : Text = to_lower unicode (c ∷ cs) in
    elim (Bool-cases (contains blocked_domains lower)) [
      | inl e ↦ (λ p. cc, under-listed blocked_domains lower (contains_sound _ _ e))
      | inr e ↦ (
        λ p. cc,
        under-below blocked_domains lower (below_any_sound blocked_domains lower (rw e at h)),
      )
    ]

blocked_complete :
    (unicode : Unicode) (host : Text)
    → host ≢ []
    → IsUnderAny blocked_domains (to_lower unicode host)
    → is_blocked_domain unicode host ≡ true
unfolding is_blocked_domain
blocked_complete unicode [] nonempty h = absurd (nonempty refl)
blocked_complete unicode (c ∷ cs) nonempty h =
    let lower : Text = to_lower unicode (c ∷ cs) in
    elim (under_cases blocked_domains lower h) [
      | inl k ↦ rw (contains_complete blocked_domains lower k)
      | inr k ↦ ground (arith, below_any_complete blocked_domains lower k)
    ]

-- A host is blocked exactly when it is not empty and, in lower case, is one of the listed domains
-- or ends in a dot and one of them.
pub is_blocked_domain_iff :
    (unicode : Unicode) (host : Text)
    → (is_blocked_domain unicode host ≡ true)
      ↔ ((host ≢ []) × IsUnderAny blocked_domains (to_lower unicode host))
is_blocked_domain_iff unicode host =
    (blocked_sound unicode host, λ h. blocked_complete unicode host h.0 h.1)
