-- ===== src/Kms/OptIn.antt =====
-- common/pkicore/pkicore/kms/factory.py: when keys are held in software.
use pkica.Base.{
  String, ◌≡◌, ◌↔◌, refl, sym, ap, ◌∙◌, true, Option, none, some, ◌==◌, eq_iff, arith, Bool-cases,
  inl, inr,
}
use pkica.Text.{lower}
use pkica.Json.{nonempty}
use pkica.Asn1.{Bytes}
use pkica.Effect.{Result, ok, and_then}
use pkica.Effect.Keeps.{and_then_returned}
use pkica.Kms.Factory.{
  Adapter, connected, connect_adapter, KmsSettings, Backend, aws_kms, azure_key_vault, gcp_kms,
  vault_transit, pkcs11_hsm, software, or_false, set_master, prepared, software_init,
  software_backend, backend_named, build_kms_backend,
}

-- The conditions under which keys may be held in software.
pub record IsOptedIn (s : KmsSettings) (text : String) : Type 0 where
  pub named : lower s.ca_key_backend ≡ "software"
  pub allowed : s.allow_software_kms ≡ true
  pub enabled : lower (or_false s.software_variable) ≡ "true"
  pub master : s.master_variable ≡ some text
  pub filled : nonempty text ≡ true

prepared-ok :
    (key_of : String → Result Bytes) (mkdir : String → Result (Unit {0})) (path text : String)
    (key : Bytes)
    → (prepared key_of mkdir path text ≡ ok key) ↔ ((key_of text ≡ ok key) × (mkdir path ≡ ok tt))
prepared-ok key_of mkdir path text key = (
  λ h.
      let (k, opens, h') = and_then_returned (key_of text) _ h in
      let (made, directory, e) = and_then_returned (mkdir path) (λ m. ok k) h' in
      (opens ∙ e, directory),
  λ h. rw h.0 (rw h.1 refl),
)

module _ {Client : Type 0} (connect : Adapter → Result Client) (key_of : String → Result Bytes)
    (mkdir : String → Result (Unit {0})) (s : KmsSettings) (path : String) (key : Bytes) where
  adapter_other : (a : Adapter) → connect_adapter connect a ≡ ok (software path key) → ⊥
  unfolding connect_adapter
  adapter_other a h =
      let (client, _, e) = and_then_returned (connect a) (λ c. ok (connected c)) h in absurd cc

  named_software :
      (backend : String)
      → backend_named connect key_of mkdir backend s ≡ ok (software path key)
      → (backend ≡ "software")
        × (software_backend {Client = Client} key_of mkdir s ≡ ok (software path key))
  unfolding backend_named
  named_software backend h = elim (Bool-cases (backend == "aws_kms")) [
    | inl a ↦ absurd (adapter_other (aws_kms s.aws_region) (ground (arith, a, h)))
    | inr a ↦ elim (Bool-cases (backend == "azure_key_vault")) [
      | inl b ↦
          absurd (adapter_other (azure_key_vault s.azure_key_vault_url) (ground (arith, a, b, h)))
      | inr b ↦ elim (Bool-cases (backend == "gcp_kms")) [
        | inl c ↦ absurd (
            adapter_other (gcp_kms s.gcp_project_id s.gcp_location s.gcp_kms_key_ring)
              (ground (arith, a, b, c, h)))
        | inr c ↦ elim (Bool-cases (backend == "vault_transit")) [
          | inl d ↦ absurd (
              adapter_other (vault_transit s.vault_addr s.vault_token s.vault_transit_mount)
                (ground (arith, a, b, c, d, h)))
          | inr d ↦ elim (Bool-cases (backend == "pkcs11_hsm")) [
            | inl e ↦ absurd (
                adapter_other (pkcs11_hsm s.pkcs11_module_path s.pkcs11_slot s.pkcs11_pin)
                  (ground (arith, a, b, c, d, e, h)))
            | inr e ↦ elim (Bool-cases (backend == "software")) [
              | inl f ↦ (
                ground (arith, eq_iff backend "software", f),
                ground (arith, a, b, c, d, e, f, h),
              )
              | inr f ↦ absurd (ground (arith, a, b, c, d, e, f, h))
            ]
          ]
        ]
      ]
    ]
  ]

  filled_master :
      (o : Option String) (text : String)
      → set_master o ≡ ok text
      → (o ≡ some text) × (nonempty text ≡ true)
  unfolding set_master
  filled_master none text h = absurd cc
  filled_master (some x) text h = elim (Bool-cases (nonempty x)) [
    | inl y ↦
        let same : ok x ≡ ok text = ground (arith, y, h) in
        let e : x ≡ text = cc in (ap some e, rw (sym e) y)
    | inr n ↦ absurd (ground (arith, n, h))
  ]

  opened_software :
      software_backend {Client = Client} key_of mkdir s ≡ ok (software path key)
      → (s.allow_software_kms ≡ true)
        × (software_init {Client = Client} key_of mkdir "/data/software-kms" s
            ≡ ok (software path key))
  unfolding software_backend
  opened_software h = elim (Bool-cases s.allow_software_kms) [
    | inl y ↦ (y, ground (arith, y, h))
    | inr n ↦ absurd (ground (arith, n, h))
  ]

  keyed :
      and_then {B = Backend Client} (set_master s.master_variable) (λ text.
        and_then
          (prepared key_of mkdir "/data/software-kms" text)
          (λ k. ok (software "/data/software-kms" k)))
        ≡ ok (software path key)
      → (text : String) × (s.master_variable ≡ some text)
        × (nonempty text ≡ true)
        × (prepared key_of mkdir "/data/software-kms" text ≡ ok key)
        × (path ≡ "/data/software-kms")
  keyed h =
      let (text, m, h') = and_then_returned _ _ h in
      let (k, o, e) =
        and_then_returned (prepared key_of mkdir "/data/software-kms" text)
          (λ k'. ok (software "/data/software-kms" k')) h' in
      let (stored, filled) = filled_master s.master_variable text m in
      let same : ◌≡◌ {A = Backend Client} (software "/data/software-kms" k) (software path key) =
        cc in
      let same_key : k ≡ key = cc in (text, stored, filled, o ∙ ap ok same_key, cc)

  enabled_init :
      software_init {Client = Client} key_of mkdir "/data/software-kms" s ≡ ok (software path key)
      → (lower (or_false s.software_variable) ≡ "true")
        × (text : String) × (s.master_variable ≡ some text)
        × (nonempty text ≡ true)
        × (prepared key_of mkdir "/data/software-kms" text ≡ ok key)
        × (path ≡ "/data/software-kms")
  unfolding software_init
  enabled_init h = elim (Bool-cases (lower (or_false s.software_variable) == "true")) [
    | inl y ↦
        let (text, stored, filled, opens, at) = keyed (ground (arith, y, h)) in
        (
          ground (arith, eq_iff (lower (or_false s.software_variable)) "true", y),
          text,
          stored,
          filled,
          opens,
          at,
        )
    | inr n ↦ absurd (ground (arith, n, h))
  ]

built :
    {Client : Type 0} (connect : Adapter → Result Client) (key_of : String → Result Bytes)
    (mkdir : String → Result (Unit {0})) (s : KmsSettings) (key : Bytes) (text : String)
    → IsOptedIn s text
    → prepared key_of mkdir "/data/software-kms" text ≡ ok key
    → backend_named connect key_of mkdir "software" s ≡ ok (software "/data/software-kms" key)
unfolding backend_named software_backend software_init set_master
built connect key_of mkdir s key text o opens =
    rw o.allowed (rw o.enabled (rw o.master (rw o.filled (rw opens refl))))

-- Keys are held in software exactly when the settings name the software backend, in whatever case, and
-- allow it, the environment allows it too, the master key is set and opens the cipher, and the directory
-- of the keys is there or can be made: no other setting gives that backend, and each of the conditions
-- is needed.
pub build_kms_backend-iff-IsOptedIn :
    {Client : Type 0} (connect : Adapter → Result Client) (key_of : String → Result Bytes)
    (mkdir : String → Result (Unit {0})) (s : KmsSettings) (path : String) (key : Bytes)
    → (build_kms_backend connect key_of mkdir s ≡ ok (software path key)) ↔ (
        (text : String) × IsOptedIn s text
        × (key_of text ≡ ok key)
        × (mkdir "/data/software-kms" ≡ ok tt)
        × (path ≡ "/data/software-kms"))
unfolding build_kms_backend
build_kms_backend-iff-IsOptedIn connect key_of mkdir s path key = (
  λ h.
      let (name, h') = named_software connect key_of mkdir s path key (lower s.ca_key_backend) h in
      let (allows, h'') = opened_software connect key_of mkdir s path key h' in
      let (on, text, stored, full, opens, at) = enabled_init connect key_of mkdir s path key h'' in
      let (opened_key, directory) =
        (prepared-ok key_of mkdir "/data/software-kms" text key).0 opens in
      (
        text,
        record { named = name; allowed = allows; enabled = on; master = stored; filled = full },
        opened_key,
        directory,
        at,
      ),
  λ h.
      let (text, o, opens, directory, at) = h in
      rw o.named (
        rw at (
          built connect key_of mkdir s key text o
            ((prepared-ok key_of mkdir "/data/software-kms" text key).1 (opens, directory)))),
)
