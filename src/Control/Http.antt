-- ===== src/Control/Http.antt =====
-- What the handlers of cmd/control answer: a body with status 200, or a status and its message; and the
-- handlers behind requireRole of auth.go.
use sense_grid.Common.{ℕ, Text, codes}
use sense_grid.Control.Auth.{Jwt, unauthorized, forbidden, passed, require_role}

pub data Reply (B : Type 0) : Type 0 where
  answered : B → Reply B
  refused : ℕ → Text → Reply B

-- The route of a handler: `header` is the value of Authorization.
pub record Gatekeeper : Type 0 where
  pub jwt : Jwt
  pub issuer : Text
  pub signing_key : Text

unfoldable pub behind_role :
    {B S : Type 0} → Gatekeeper → Text → Text → ℕ → (S → Reply B × S) → S → Reply B × S
behind_role g min_role header now handler s =
    elim (require_role g.jwt min_role g.issuer g.signing_key header now) [
      | unauthorized ↦ (refused 401 (codes "invalid or missing bearer token"), s)
      | forbidden ↦ (refused 403 (codes "insufficient role"), s)
      | passed role ↦ handler s
    ]

abbrev pub internal_error : {B : Type 0} → Reply B
internal_error = refused 500 (codes "internal error")

abbrev pub invalid_body : {B : Type 0} → Reply B
invalid_body = refused 400 (codes "invalid request body")
