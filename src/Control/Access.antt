-- ===== src/Control/Access.antt =====
-- Who passes requireRole.
use sense_grid.Common.{
  ℕ, ◌+◌, ◌<◌, ◌≡◌, refl, ◌↔◌, inl, inr, true, false, some, [], ◌∷◌, ◌++◌, arith, if◌then◌else◌,
  Text, Option-cases,
}
use sense_grid.Fleet.Provisioning.{is_empty}
use sense_grid.Control.Auth.{
  Jwt, Claims, forbidden, passed, bearer, cut_prefix, role_rank, role_allows, sign_token,
  verify_token, verify_bearer, require_role,
}

cut_prefix_iff : (p s t : Text) → (cut_prefix p s ≡ some t) ↔ (s ≡ p ++ t)
cut_prefix_iff [] s t = ground arith
cut_prefix_iff (c ∷ p) [] t = ground arith
cut_prefix_iff (c ∷ p) (d ∷ s) t = ground (arith, cut_prefix_iff p s t)

-- The library's documented behaviour: a token is parsed, under the key and the issuer that it was signed
-- with and before it expires, to the claims that were signed, and it is not empty.
pub record JwtLaws (jwt : Jwt) : Type 0 where
  pub parses :
      (key token : Text) (c : Claims) (now : ℕ)
      → jwt.sign key c ≡ some token
      → now < c.expires_at
      → jwt.parse key c.issuer now token ≡ some c
  pub not_empty :
      (key token : Text) (c : Claims) → jwt.sign key c ≡ some token → is_empty token ≡ false

module _ (jwt : Jwt) where
  verify_token-some :
      (token issuer key : Text) (now : ℕ) (c : Claims) (r : ℕ)
      → is_empty token ≡ false
      → jwt.parse key issuer now token ≡ some c
      → role_rank c.role ≡ some r
      → verify_token jwt token issuer key now ≡ some (c.role, c.subject)
  unfolding verify_token
  verify_token-some [] issuer key now c r e p q = ground arith
  verify_token-some (t ∷ ts) issuer key now c r e p q =
      rw (p, verify_token) (rw (q, verify_token) refl)

  sign_token-some :
      (role issuer : Text) (ttl : ℕ) (key subject : Text) (now : ℕ) (token : Text)
      → sign_token jwt role issuer ttl key subject now ≡ some token
      → (r : ℕ) × (role_rank role ≡ some r)
        × (jwt.sign key (record {
          role = role;
          subject = subject;
          issuer = issuer;
          issued_at = jwt.numeric_date now;
          expires_at = jwt.numeric_date (now + ttl);
        })
            ≡ some token)
  unfolding sign_token
  sign_token-some role issuer ttl key subject now token h = elim (Option-cases (role_rank role)) [
    | inl e ↦ ground arith
    | inr (r, e) ↦ (r, e, ground arith)
  ]

  -- Under the laws above: until it expires, a token that signToken made for a role passes requireRole with that role exactly
  -- where the role is allowed, and is forbidden elsewhere.
  pub require_role-sign_token :
      (laws : JwtLaws jwt) (role issuer : Text) (ttl : ℕ) (key subject min_role token : Text)
      (now later : ℕ)
      → sign_token jwt role issuer ttl key subject now ≡ some token
      → later < jwt.numeric_date (now + ttl)
      → require_role jwt min_role issuer key (bearer ++ token) later
        ≡ (if role_allows role min_role then passed role else forbidden)
  unfolding require_role verify_bearer
  require_role-sign_token laws role issuer ttl key subject min_role token now later h l =
      let (r, ranked, signed) = sign_token-some role issuer ttl key subject now token h in
      let c : Claims = record {
        role = role;
        subject = subject;
        issuer = issuer;
        issued_at = jwt.numeric_date now;
        expires_at = jwt.numeric_date (now + ttl);
      } in
      let full = laws.not_empty key token c signed in
      let verified =
        verify_token-some token issuer key later c r full (laws.parses key token c later signed l)
          ranked in
      rw (full, require_role, verify_bearer) (rw (verified, verify_bearer) refl)

  verify_token-parsed :
      (token issuer key : Text) (now : ℕ) (role subject : Text)
      → verify_token jwt token issuer key now ≡ some (role, subject)
      → (c : Claims) × (jwt.parse key issuer now token ≡ some c) × (c.role ≡ role)
  unfolding verify_token
  verify_token-parsed [] issuer key now role subject h = ground arith
  verify_token-parsed (t ∷ ts) issuer key now role subject h =
      elim (Option-cases (jwt.parse key issuer now (t ∷ ts))) [
        | inl e ↦ ground arith
        | inr (c, e) ↦ (c, e, ground arith)
      ]

  verify_bearer-some :
      (header issuer key : Text) (now : ℕ) (role : Text)
      → verify_bearer jwt header issuer key now ≡ some role
      → (token : Text) × (c : Claims) × (header ≡ bearer ++ token)
        × (jwt.parse key issuer now token ≡ some c)
        × (c.role ≡ role)
  unfolding verify_bearer
  verify_bearer-some header issuer key now role h = elim (Option-cases (cut_prefix bearer header)) [
    | inl e ↦ ground arith
    | inr (token, e) ↦ elim (Option-cases (verify_token jwt token issuer key now)) [
      | inl bad ↦ ground arith
      | inr ((r, subject), good) ↦
          let (c, parsed, same) = verify_token-parsed token issuer key now r subject good in
          (token, c, (cut_prefix_iff bearer header token).0 e, parsed, ground arith)
    ]
  ]

  -- A handler behind requireRole runs only for a request whose Authorization header is "Bearer " and a
  -- token that the library accepted for this key and issuer, with a role in its claims that is
  -- allowed what the handler asks for; and it runs with that role.
  pub require_role-passed :
      (min_role issuer key header : Text) (now : ℕ) (role : Text)
      → require_role jwt min_role issuer key header now ≡ passed role
      → (token : Text) × (c : Claims) × (header ≡ bearer ++ token)
        × (jwt.parse key issuer now token ≡ some c)
        × (c.role ≡ role)
        × (role_allows role min_role ≡ true)
  unfolding require_role
  require_role-passed min_role issuer key header now role h =
      elim (Option-cases (verify_bearer jwt header issuer key now)) [
        | inl e ↦ ground arith
        | inr (r, e) ↦
            let (token, c, cut, parsed, same) = verify_bearer-some header issuer key now r e in
            (token, c, cut, parsed, ground arith, ground arith)
      ]
