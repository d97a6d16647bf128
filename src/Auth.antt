-- ===== src/Auth.antt =====
-- common/pkicore/pkicore/auth: identities of peer services, from the headers that the proxy sets, and
-- roles of operators, from the claims of a verified token.
use Prim.Native.String.{◌++◌ as glue}
use pkica.Base.{String, not, Option, none, some, List, [], any, member, if◌then◌else◌}
use pkica.Text.{upper_equals}
use pkica.Effect.{Result, ok, err, http_exception}

-- `X-Client-Cert-Verify` and `X-Client-Cert-CN`; a header that is absent is the empty text.
pub record Headers : Type 0 where
  pub x_client_cert_verify : String
  pub x_client_cert_cn : String

-- auth/mtls.py: require_mtls_peer
unfoldable pub require_mtls_peer : List String → Headers → Result String
unfolding upper_equals
require_mtls_peer allowed_cns h =
    if not (upper_equals h.x_client_cert_verify "SUCCESS")
    then err (http_exception 401 "mTLS client certificate verification failed")
    else if not (member h.x_client_cert_cn allowed_cns)
    then err (
        http_exception 403
          (glue "Peer '" (glue h.x_client_cert_cn "' not authorized for this endpoint")))
    else ok h.x_client_cert_cn

-- The claims that the services read: `sub` and the list `pkica_roles`, either of which may be absent.
pub record Claims : Type 0 where
  pub sub : Option String
  pub pkica_roles : Option (List String)

-- `claims.get(ROLE_CLAIM, [])`
abbrev pub roles_of : Option (List String) → List String
roles_of none = []
roles_of (some roles) = roles

-- auth/rbac.py: require_role, and `require_role_dep` of services/ra/app/api.py
unfoldable pub require_role : List String → Claims → Result Claims
require_role roles claims =
    if any (λ r. member r roles) (roles_of claims.pkica_roles)
    then ok claims
    else err (http_exception 403 "Requires one of roles")

-- `claims.get("sub", "unknown")`
unfoldable pub subject_of : Claims → String
subject_of claims = elim claims.sub [ none ↦ "unknown" | some s ↦ s ]
