-- ===== src/Ca/Policy.antt =====
-- services/ca/app/service.py: what a profile permits of a key and of subject alternative names.
use Prim.Native.String.{◌++◌ as glue}
use pkica.Base.{String, Bool, not, ◌&&◌, List, [], ◌∷◌, member, ◌==◌, if◌then◌else◌}
use pkica.Text.{split, before, decimal, comma}
use pkica.Effect.{Result, ok, err, policy_violation, and_then}
use pkica.Models.{CertProfile}
use pkica.Platform.{Platform, KeyKind, rsa, ec, other}

unfoldable pub describe_key_kind : KeyKind → Result String
unfolding decimal
describe_key_kind (rsa key_size) = ok (glue "RSA_" (decimal key_size))
describe_key_kind (ec curve) = ok (if curve == "secp256r1" then "EC_P256" else "EC_P384")
describe_key_kind other = err (policy_violation "Unsupported public key algorithm")

-- _describe_key_algorithm
unfoldable pub describe_key_algorithm : (p : Platform) → p.PublicKey → Result String
unfolding describe_key_kind
describe_key_algorithm p public_key = describe_key_kind (p.key_kind public_key)

-- The loop over the names; `san.split(":", 1)[0]` is the kind of one.
unfoldable pub enforce_sans : CertProfile → List String → Result (Unit {0})
unfolding before
enforce_sans profile [] = ok tt
enforce_sans profile (san ∷ sans) =
    let kind = before b':' san in
    let rest = enforce_sans profile sans in
    if kind == "dns" && not profile.allow_san_dns
    then err (policy_violation "DNS SANs not permitted by profile")
    else if kind == "ip" && not profile.allow_san_ip
    then err (policy_violation "IP SANs not permitted by profile")
    else rest

-- `key_algo not in allowed_algos`
unfoldable pub key_permitted : CertProfile → String → Bool
unfolding split
key_permitted profile key_algo = member key_algo (split comma profile.allowed_key_algorithms)

-- CAService._enforce_profile
unfoldable pub enforce_profile :
    (p : Platform) → CertProfile → p.PublicKey → List String → Result (Unit {0})
unfolding describe_key_algorithm key_permitted enforce_sans
enforce_profile p profile public_key requested_sans =
    and_then (describe_key_algorithm p public_key) λ key_algo.
      if key_permitted profile key_algo
      then enforce_sans profile requested_sans
      else err (
          policy_violation (
            glue "Key algorithm " (glue key_algo (glue " not permitted by profile " profile.name))))
