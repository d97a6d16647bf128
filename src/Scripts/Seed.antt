-- ===== src/Scripts/Seed.antt =====
-- scripts/seed-profiles.py: the profiles that the servers ask for.
use Prim.Native.String.{◌++◌ as glue}
use pkica.Base.{
  ℕ, String, Bool, true, false, ◌||◌, Option, none, some, List, [], ◌∷◌, ◌++◌, ◌==◌, eqb, any,
  if◌then◌else◌,
}
use pkica.Base.Int.{ℤ, pos}
use pkica.Effect.{Error, Result, ok, err, outside, Exec, pure, or_raise, ◌>>=◌, ◌>>◌}
use pkica.Models.{Db, CertProfile, ca_named, profile_named}
use pkica.Platform.{Platform, World, uuid4, with_db, read_db}

-- The members of a dict of PROFILES.
pub record Spec : Type 0 where
  pub name : String
  pub max_validity_days : ℤ
  pub key_usage : String
  pub extended_key_usage : String
  pub allow_san_dns : Bool
  pub allow_san_ip : Bool
  pub require_approval : Bool
  pub allowed_protocols : String

abbrev server_spec : String → ℤ → String → Bool → Bool → String → Spec
server_spec name days usage with_ip approval protocols = record {
  name = name;
  max_validity_days = days;
  key_usage = "digital_signature,key_encipherment";
  extended_key_usage = usage;
  allow_san_dns = true;
  allow_san_ip = with_ip;
  require_approval = approval;
  allowed_protocols = protocols;
}

-- PROFILES
unfoldable pub profiles : List Spec
profiles =
    server_spec "acme-tls-server" (pos 90) "server_auth" false false "acme"
    ∷ server_spec "est-device" (pos 397) "client_auth" true false "est"
    ∷ server_spec "scep-device" (pos 397) "client_auth" true false "scep"
    ∷ server_spec "rest-tls-server" (pos 397) "server_auth" true true "rest"
    ∷ []

-- CertProfile(issuing_ca_id=ca.id, **spec), with the default of the model
abbrev pub profile_of : ℕ → ℕ → Spec → CertProfile
profile_of id ca_id spec = record {
  id = id;
  name = spec.name;
  issuing_ca_id = ca_id;
  max_validity_days = spec.max_validity_days;
  allowed_key_algorithms = "RSA_2048,RSA_4096,EC_P256,EC_P384";
  key_usage = spec.key_usage;
  extended_key_usage = spec.extended_key_usage;
  allow_san_dns = spec.allow_san_dns;
  allow_san_ip = spec.allow_san_ip;
  require_approval = spec.require_approval;
  allowed_protocols = spec.allowed_protocols;
}

-- The columns `id` and `name` of the profiles are unique.
unfoldable pub insert_profile : CertProfile → Db → Result Db
insert_profile p db =
    if any (λ q. q.name == p.name || eqb q.id p.id) db.cert_profiles
    then err (outside "IntegrityError")
    else ok (record db { cert_profiles = db.cert_profiles ++ p ∷ [] })

-- SystemExit
abbrev pub no_ca : String → Error
no_ca issuing_ca =
    outside
      (glue "Issuing CA '" (glue issuing_ca "' not found — create it first via `app.bootstrap`."))

module _ {p : Platform} where
  unfoldable pub add_missing : Option CertProfile → ℕ → Spec → Exec (World p) (Unit {0})
  add_missing (some existing) ca_id spec = pure tt
  add_missing none ca_id spec = do id ← uuid4; with_db (insert_profile (profile_of id ca_id spec))

  -- the body of the loop, and the loop
  unfoldable pub seed_profile : ℕ → Spec → Exec (World p) (Unit {0})
  seed_profile ca_id spec = do
    existing ← read_db (profile_named spec.name)
    add_missing existing ca_id spec

  unfoldable pub seed_all : ℕ → List Spec → Exec (World p) (Unit {0})
  seed_all ca_id [] = pure tt
  seed_all ca_id (spec ∷ specs) = do seed_profile ca_id spec; seed_all ca_id specs

  -- main, up to its commit
  unfoldable pub seed : String → Exec (World p) (Unit {0})
  seed issuing_ca = do
    found ← read_db (ca_named issuing_ca)
    ca ← or_raise found (no_ca issuing_ca)
    seed_all ca.id profiles
