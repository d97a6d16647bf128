-- ===== src/Kms/Factory.antt =====
-- common/pkicore/pkicore/kms/factory.py, and the constructor of kms/software.py.
use Prim.Native.String.{◌++◌ as glue}
use pkica.Base.{String, Bool, Option, none, some, ◌==◌, if◌then◌else◌}
use pkica.Base.Int.{ℤ}
use pkica.Text.{lower}
use pkica.Json.{nonempty}
use pkica.Asn1.{Bytes}
use pkica.Effect.{Result, ok, err, and_then, value_error, outside}

-- The settings that the factory reads, and the two variables of the environment that the software
-- backend reads itself.
pub record KmsSettings : Type 0 where
  pub ca_key_backend : String
  pub allow_software_kms : Bool
  pub aws_region : Option String
  pub azure_key_vault_url : Option String
  pub gcp_project_id : Option String
  pub gcp_location : Option String
  pub gcp_kms_key_ring : Option String
  pub vault_addr : Option String
  pub vault_token : Option String
  pub vault_transit_mount : String
  pub pkcs11_module_path : Option String
  pub pkcs11_slot : Option ℤ
  pub pkcs11_pin : Option String
  pub software_variable : Option String
  pub master_variable : Option String

-- The adapters around other stores of keys, with the arguments of their constructors.
pub data Adapter : Type 0 where
  aws_kms azure_key_vault : Option String → Adapter
  gcp_kms : Option String → Option String → Option String → Adapter
  vault_transit : Option String → Option String → String → Adapter
  pkcs11_hsm : Option String → Option ℤ → Option String → Adapter

-- An adapter's object, as its constructor gives it, or the software backend with its key.
pub data Backend (Client : Type 0) : Type 0 where
  connected : Client → Backend Client
  software : String → Bytes → Backend Client

abbrev pub or_false : Option String → String
or_false none = "false"
or_false (some text) = text

-- `if not master_key_b64: raise RuntimeError(...)`
unfoldable pub set_master : Option String → Result String
set_master none =
    err (outside "PKICA_SOFTWARE_KMS_MASTER_KEY must be set (32 random bytes, base64)")
set_master (some text) =
    if nonempty text
    then ok text
    else err (outside "PKICA_SOFTWARE_KMS_MASTER_KEY must be set (32 random bytes, base64)")

-- the cipher with the key, then the directory
abbrev pub prepared :
    (String → Result Bytes) → (String → Result (Unit {0})) → String → String → Result Bytes
prepared key_of mkdir storage_path text =
    and_then (key_of text) (λ key. and_then (mkdir storage_path) (λ made. ok key))

-- SoftwareKMSBackend.__init__; the arguments give the key of AESGCM(base64.b64decode(text)), and the
-- outcome of Path(storage_path).mkdir(parents=True, exist_ok=True)
unfoldable pub software_init :
    {Client : Type 0}
    → (String → Result Bytes)
    → (String → Result (Unit {0}))
    → String
    → KmsSettings
    → Result (Backend Client)
unfolding lower set_master
software_init key_of mkdir storage_path s =
    if lower (or_false s.software_variable) == "true"
    then and_then (set_master s.master_variable) (λ text.
      and_then (prepared key_of mkdir storage_path text) (λ key. ok (software storage_path key)))
    else err (
        outside
          "Software KMS backend is disabled. Set PKICA_ALLOW_SOFTWARE_KMS=true only for local development/CI. Never use this backend in production.")

-- the branch for the software backend
unfoldable pub software_backend :
    {Client : Type 0}
    → (String → Result Bytes)
    → (String → Result (Unit {0}))
    → KmsSettings
    → Result (Backend Client)
unfolding software_init
software_backend key_of mkdir s =
    if s.allow_software_kms
    then software_init key_of mkdir "/data/software-kms" s
    else err (
        outside
          "CA_KEY_BACKEND=software requires PKICA_ALLOW_SOFTWARE_KMS=true. This backend must never be used in production.")

unfoldable pub connect_adapter :
    {Client : Type 0} → (Adapter → Result Client) → Adapter → Result (Backend Client)
connect_adapter connect a = and_then (connect a) (λ client. ok (connected client))

-- the choice by a name in lower case; the text of the exception is repr's for a name without quotes
unfoldable pub backend_named :
    {Client : Type 0}
    → (Adapter → Result Client)
    → (String → Result Bytes)
    → (String → Result (Unit {0}))
    → String
    → KmsSettings
    → Result (Backend Client)
unfolding software_backend
backend_named connect key_of mkdir backend s =
    if backend == "aws_kms"
    then connect_adapter connect (aws_kms s.aws_region)
    else if backend == "azure_key_vault"
    then connect_adapter connect (azure_key_vault s.azure_key_vault_url)
    else if backend == "gcp_kms"
    then connect_adapter connect (gcp_kms s.gcp_project_id s.gcp_location s.gcp_kms_key_ring)
    else if backend == "vault_transit"
    then connect_adapter connect (vault_transit s.vault_addr s.vault_token s.vault_transit_mount)
    else if backend == "pkcs11_hsm"
    then connect_adapter connect (pkcs11_hsm s.pkcs11_module_path s.pkcs11_slot s.pkcs11_pin)
    else if backend == "software"
    then software_backend key_of mkdir s
    else err (value_error (glue "Unknown CA_KEY_BACKEND: '" (glue backend "'")))

unfoldable pub build_kms_backend :
    {Client : Type 0}
    → (Adapter → Result Client)
    → (String → Result Bytes)
    → (String → Result (Unit {0}))
    → KmsSettings
    → Result (Backend Client)
unfolding lower backend_named
build_kms_backend connect key_of mkdir s =
    backend_named connect key_of mkdir (lower s.ca_key_backend) s
