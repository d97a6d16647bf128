-- ===== src/Ca/Audited.antt =====
-- services/ca/app/service.py: the methods and the chain of the audit log.
use pkica.Base.{ℕ, String, leb, ◌≡◌, true, none, List, arith}
use pkica.Base.Int.{ℤ}
use pkica.Effect.{ok}
use pkica.Effect.Keeps.{Keeps, Keeps-bind, keeps_rules}
use pkica.Audit.{Event, verify_chain, AuditLib}
use pkica.Audit.Chain.{IsCodec, verify_chain-record_entry}
use pkica.Models.{Db, CertificateAuthority, CertProfile, Certificate, insert_ca, insert_certificate}
use pkica.Platform.{Platform, World, now, with_db}
use pkica.Text.{text_length}
use pkica.Platform.Keeps.{Ensures-if, OnDb, Keeps-with_db, Keeps-now, db_rules}
use pkica.Crypto.Keeps.{crypto_rules}
use pkica.Ca.Session.{get_ca, audit_record}
use pkica.Ca.Lifecycle.{create_root_ca, create_intermediate_ca}
use pkica.Ca.Issue.{issue_certificate, revoke_certificate, mark_revoked}
use pkica.Ca.Status.{generate_crl, sign_ocsp_response, bump_crl_number}

-- The table verifies under the secret.
abbrev pub IsAudited : AuditLib → String → Db → Type 0
IsAudited lib secret db = verify_chain lib secret db.audit_log.rows ≡ ok (true, none)

module _ (p : Platform) (secret : String) (codec : IsCodec p.audit) where
  abbrev pub Audited : World p → Type 0
  Audited = OnDb (IsAudited p.audit secret)

  Keeps-get_ca : (name : String) → Keeps Audited (get_ca p name)
  unfolding get_ca
  Keeps-get_ca name = search (keeps_rules, db_rules)

  pub Keeps-audit_record : (e : Event) → Keeps Audited (audit_record p secret e)
  unfolding audit_record
  Keeps-audit_record e = Keeps-bind now _ Keeps-now λ t.
      Keeps-with_db _ (λ db h. verify_chain-record_entry p.audit secret codec e t db.audit_log h)

  Keeps-insert_ca : (ca : CertificateAuthority) → Keeps Audited (with_db (insert_ca ca))
  Keeps-insert_ca ca = Keeps-with_db _ λ db h. unfold insert_ca in ground arith

  Keeps-insert_certificate : (c : Certificate) → Keeps Audited (with_db (insert_certificate c))
  Keeps-insert_certificate c = Keeps-with_db _ λ db h. unfold insert_certificate in ground arith

  Keeps-mark_revoked :
      (id : ℕ) (reason : String) (at : ℤ) → Keeps Audited (with_db (mark_revoked id reason at))
  Keeps-mark_revoked id reason at =
      Keeps-with_db _
        λ db h. unfold mark_revoked in Ensures-if _ (leb (text_length reason) 64) _ _ h

  Keeps-bump_crl_number : (id : ℕ) → Keeps Audited (with_db (bump_crl_number id))
  Keeps-bump_crl_number id = Keeps-with_db _ λ db h. unfold bump_crl_number in h

ruleset audited_rules = (
  keeps_rules, db_rules, crypto_rules, Keeps-get_ca, Keeps-audit_record, Keeps-insert_ca,
  Keeps-insert_certificate, Keeps-mark_revoked, Keeps-bump_crl_number,
)

module _ (p : Platform) (secret : String) (codec : IsCodec p.audit) where
  pub create_root_ca-Audited :
      (name : String) (subject : List (String × String)) (key_algorithm : String) (days : ℤ)
      → Keeps (Audited p secret codec) (create_root_ca p secret name subject key_algorithm days)
  unfolding create_root_ca
  create_root_ca-Audited name subject key_algorithm days = search audited_rules depth 40

  pub create_intermediate_ca-Audited :
      (name parent : String) (subject : List (String × String)) (key_algorithm : String)
      (days path_len : ℤ)
      → Keeps
          (Audited p secret codec)
          (create_intermediate_ca p secret name parent subject key_algorithm days path_len)
  unfolding create_intermediate_ca
  create_intermediate_ca-Audited name parent subject key_algorithm days path_len =
      search audited_rules depth 40

  pub issue_certificate-Audited :
      (ca_name : String) (profile : CertProfile) (csr_pem : String) (sans : List String) (days : ℤ)
      (requester : String)
      → Keeps
          (Audited p secret codec)
          (issue_certificate p secret ca_name profile csr_pem sans days requester)
  unfolding issue_certificate
  issue_certificate-Audited ca_name profile csr_pem sans days requester =
      search audited_rules depth 40

  pub revoke_certificate-Audited :
      (serial reason actor : String)
      → Keeps (Audited p secret codec) (revoke_certificate p secret serial reason actor)
  unfolding revoke_certificate
  revoke_certificate-Audited serial reason actor = search audited_rules depth 40

  pub generate_crl-Audited :
      (ca_name : String) (hours : ℤ)
      → Keeps (Audited p secret codec) (generate_crl p secret ca_name hours)
  unfolding generate_crl
  generate_crl-Audited ca_name hours = search audited_rules depth 40

  pub sign_ocsp_response-Audited :
      (ca_name serial : String)
      → Keeps (Audited p secret codec) (sign_ocsp_response p secret ca_name serial)
  unfolding sign_ocsp_response
  sign_ocsp_response-Audited ca_name serial = search audited_rules depth 40
