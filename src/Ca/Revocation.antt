-- ===== src/Ca/Revocation.antt =====
-- services/ca/app/service.py: what a revocation does to the answers about the certificate.
use pkica.Base.{
  ◌≤◌, leb, true, Bool, Bool-cases, inl, inr, [], ◌∷◌, select, ap, arith, String, ◌≡◌, ◌∙◌, refl,
  some, List, ◌==◌, eqb, eqb_refl, find_first, update_where,
}
use pkica.Base.Int.{ℤ}
use pkica.Base.Lists.{find_first-update_where}
use pkica.Text.{text_length}
use pkica.Audit.{AuditTable}
use pkica.Effect.{ok, pure, or_raise, ◌>>=◌, ◌>>◌}
use pkica.Models.{Db, Certificate, certificate_with_serial}
use pkica.Platform.{Platform, World, now, with_db, read_db}
use pkica.Ca.Session.{audit_record}
use pkica.Ca.Issue.{revoked_row, mark_revoked, revoke_certificate}
use pkica.Ca.Status.{status_of}

only_found :
    (p : Certificate → Bool) (c : Certificate) (cs : List Certificate)
    → select p cs ≡ c ∷ []
    → find_first p cs ≡ some c
only_found p c [] h = absurd cc
only_found p c (d ∷ cs) h = elim (Bool-cases (p d)) [
  | inl kept ↦
      let same_list : d ∷ select p cs ≡ c ∷ [] = ground (arith, kept, h) in
      let same : d ≡ c = cc in rw kept (ap some same)
  | inr other ↦ rw other (only_found p c cs (ground (arith, other, h)))
]

marked :
    (serial reason : String) (at : ℤ) (c : Certificate) (cs : List Certificate)
    → find_first (λ d. d.serial_number == serial) cs ≡ some c
    → find_first
        (λ d. d.serial_number == serial)
        (update_where (λ d. eqb d.id c.id) (revoked_row reason at) cs)
      ≡ some (revoked_row reason at c)
marked serial reason at c cs found =
    find_first-update_where (λ d. d.serial_number == serial) (λ d. eqb d.id c.id)
      (revoked_row reason at) cs (λ x. refl)
    ∙ rw found (rw (eqb_refl c.id) refl)

marked_status :
    (serial reason : String) (at : ℤ) (c : Certificate) (db : Db) (log : AuditTable)
    → certificate_with_serial serial db ≡ some c
    → status_of (
        certificate_with_serial serial (record db {
          certificates = update_where (λ d. eqb d.id c.id) (revoked_row reason at) db.certificates;
          audit_log = log;
        }))
      ≡ "revoked"
unfolding certificate_with_serial status_of
marked_status serial reason at c db log found =
    rw (marked serial reason at c db.certificates found) refl

module _ (p : Platform) (secret : String) where
  -- The revocation of a serial number that one row has, for a reason of at most 64 characters, returns
  -- that row with the reason and the time of the call, and after it a look-up of the serial number, by
  -- which OCSP answers, says revoked.
  pub revoke_certificate-status_of :
      (serial reason actor : String) (w : World p) (c : Certificate)
      → select (λ d. d.serial_number == serial) w.db.certificates ≡ c ∷ []
      → text_length reason ≤ 64
      → ((revoke_certificate p secret serial reason actor w).0
          ≡ ok (revoked_row reason (p.now_at w.calls) c))
        × (status_of (
              certificate_with_serial serial
                (revoke_certificate p secret serial reason actor w).1.db)
            ≡ "revoked")
  unfolding revoke_certificate ◌>>=◌ ◌>>◌ read_db or_raise now with_db mark_revoked audit_record
      pure
  revoke_certificate-status_of serial reason actor w c only short =
      let found : certificate_with_serial serial w.db ≡ some c =
        unfold certificate_with_serial in only_found (λ d. d.serial_number == serial) c _ only in
      let fits : leb (text_length reason) 64 ≡ true = grind (arith, short) in
      rw found (
        rw (fits, with_db, mark_revoked)
          (refl, marked_status serial reason (p.now_at w.calls) c w.db _ found))
