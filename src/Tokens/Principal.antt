-- ===== src/Tokens/Principal.antt =====
-- The text form of a principal and its parser (internal/app/principal.go). uuid's printer and parser are
-- parameters.
use llm_proxy_backend.Prelude.{
  ℕ, ◌≡◌, ◌∙◌, ap, sym, ◌↔◌, inl, inr, true, false, not, ◌||◌, Option, none, some, [], ◌∷◌, ◌++◌,
  arith, ◌==◌, if◌then◌else◌, Option-cases,
}
use llm_proxy_backend.Prelude.Text.{Text, ◌=t◌, =t_refl, eq_of_=t, cut, cut_sound, any_is}
use llm_proxy_backend.Tokens.Resolver.{Principal}

module _ (print_id : ℕ → Text) (parse_id : Text → Option ℕ) where
  unfoldable pub print_principal : Principal → Text
  print_principal p = print_id p.user_id ++ b':' ∷ print_id p.token_id

  -- `none` is ErrMalformedPrincipal.
  unfoldable pub parse_canonical : Text → Option ℕ
  parse_canonical s = elim (parse_id s) [
    | none ↦ none
    | some id ↦ if (id == 0) || not (print_id id =t s) then none else some id
  ]

  unfoldable pub parse_both : Text → Text → Option Principal
  unfolding parse_canonical
  parse_both user token = elim (parse_canonical user) [
    | none ↦ none
    | some user_id ↦ elim (parse_canonical token) [
      | none ↦ none
      | some token_id ↦ some (record { user_id = user_id; token_id = token_id; owner = [] })
    ]
  ]

  unfoldable pub parse_principal : Text → Option Principal
  unfolding parse_both
  parse_principal s = elim (cut b':' s) [ none ↦ none | some (user, token) ↦ parse_both user token ]

  parse_canonical_sound :
      (s : Text) (id : ℕ) → parse_canonical s ≡ some id → (print_id id ≡ s) × ((id == 0) ≡ false)
  unfolding parse_canonical
  parse_canonical_sound s id h = elim (Option-cases (parse_id s)) [
    | inl e ↦ ground arith
    | inr (k, e) ↦
        let same : k ≡ id = ground arith in
        let printed : (print_id k =t s) ≡ true = ground arith in
        (ap print_id (sym same) ∙ eq_of_=t (print_id k) s printed, ground arith)
  ]

  parse_both_sound :
      (user token : Text) (p : Principal)
      → parse_both user token ≡ some p
      → (print_id p.user_id ≡ user)
        × (print_id p.token_id ≡ token)
        × ((p.user_id == 0) ≡ false)
        × ((p.token_id == 0) ≡ false)
        × (p.owner ≡ [])
  unfolding parse_both
  parse_both_sound user token p h = elim (Option-cases (parse_canonical user)) [
    | inl e ↦ ground arith
    | inr (u, e) ↦ elim (Option-cases (parse_canonical token)) [
      | inl f ↦ ground arith
      | inr (t, f) ↦
          let (printed_u, nonzero_u) = parse_canonical_sound user u e in
          let (printed_t, nonzero_t) = parse_canonical_sound token t f in
          (ground arith, ground arith, ground arith, ground arith, ground arith)
    ]
  ]

  pub parse_principal_sound :
      (s : Text) (p : Principal)
      → parse_principal s ≡ some p
      → (print_principal p ≡ s)
        × ((p.user_id == 0) ≡ false)
        × ((p.token_id == 0) ≡ false)
        × (p.owner ≡ [])
  unfolding parse_principal print_principal
  parse_principal_sound s p h = elim (Option-cases (cut b':' s)) [
    | inl e ↦ ground arith
    | inr ((user, token), e) ↦
        let parsed : parse_both user token ≡ some p = ground arith in
        let (printed_u, printed_t, nonzero_u, nonzero_t, unnamed) =
          parse_both_sound user token p parsed in
        let (joined, _) = cut_sound b':' s user token e in
        (
          ap (λ a. a ++ b':' ∷ print_id p.token_id) printed_u
              ∙ ap (λ b. user ++ b':' ∷ b) printed_t
              ∙ sym joined,
          nonzero_u,
          nonzero_t,
          unnamed,
        )
  ]

cut-append : (sep : ℕ) (a b : Text) → any_is sep a ≡ false → cut sep (a ++ sep ∷ b) ≡ some (a, b)
unfolding cut
cut-append sep [] b h = ground arith
cut-append sep (c ∷ a) b h = ground (arith, cut-append sep a b)

module _ (print_id : ℕ → Text) (parse_id : Text → Option ℕ)
    (parse-print : (id : ℕ) → parse_id (print_id id) ≡ some id)
    (no_colon : (id : ℕ) → any_is b':' (print_id id) ≡ false) where
  parse_canonical-print :
      (id : ℕ) → (id == 0) ≡ false → parse_canonical print_id parse_id (print_id id) ≡ some id
  unfolding parse_canonical
  parse_canonical-print id nonzero = ground (arith, parse-print id, =t_refl (print_id id))

  parse-print_principal :
      (p : Principal)
      → (p.user_id == 0) ≡ false
      → (p.token_id == 0) ≡ false
      → parse_principal print_id parse_id (print_principal print_id parse_id p)
        ≡ some (record { user_id = p.user_id; token_id = p.token_id; owner = [] })
  unfolding parse_principal parse_both print_principal
  parse-print_principal p user token = ground (
    arith,
    cut-append b':' (print_id p.user_id) (print_id p.token_id) (no_colon p.user_id),
    parse_canonical-print p.user_id user,
    parse_canonical-print p.token_id token,
  )

  -- A text is parsed as a principal exactly when the principal prints as it, has no nil id and no label: a
  -- principal is parsed back from its text, and nothing else is attributed to it.
  pub parse_principal_iff :
      (s : Text) (p : Principal)
      → (parse_principal print_id parse_id s ≡ some p) ↔ (
          (print_principal print_id parse_id p ≡ s)
          × ((p.user_id == 0) ≡ false)
          × ((p.token_id == 0) ≡ false)
          × (p.owner ≡ []))
  parse_principal_iff s p = (
    parse_principal_sound print_id parse_id s p,
    λ (printed, user, token, unnamed).
        ap (parse_principal print_id parse_id) (sym printed)
        ∙ parse-print_principal p user token
        ∙ ap (λ o. some (record { user_id = p.user_id; token_id = p.token_id; owner = o }))
            (sym unnamed),
  )
