-- ===== src/Ca/Session.antt =====
-- What the methods of `CAService` share: look-ups, dates and the audit record.
use Prim.Native.String.{◌++◌ as glue}
use pkica.Base.{String, ◌||◌, none, some, if◌then◌else◌}
use pkica.Base.Int.{ℤ, pos, negsuc, ◌+ℤ◌, times, ltb_ℤ}
use pkica.Text.HexBytes.{bytes_from_hex}
use pkica.Effect.{
  Result, ok, err, lookup_error, value_error, key_error, overflow_error, Exec, or_raise, ◌>>=◌,
}
use pkica.Asn1.{Bytes}
use pkica.Audit.{Event, record_entry}
use pkica.Models.{CertificateAuthority, ca_named}
use pkica.Kms.{SignatureAlgorithm, algo_by_name}
use pkica.Platform.{Platform, World, now, with_db, read_db}

-- datetime.min and datetime.max, in UTC
abbrev pub min_time : ℤ
min_time = negsuc 62135596799999999

abbrev pub max_time : ℤ
max_time = pos 253402300799999999

unfoldable pub in_range : ℤ → Result ℤ
in_range t = if ltb_ℤ t min_time || ltb_ℤ max_time t then err overflow_error else ok t

-- t + timedelta(days=days); a sum outside the range of datetime is an OverflowError
unfoldable pub add_days : ℤ → ℤ → Result ℤ
unfolding in_range times ◌+ℤ◌
add_days t days = in_range (t +ℤ times 86400000000 days)

-- t + timedelta(hours=hours)
unfoldable pub add_hours : ℤ → ℤ → Result ℤ
unfolding in_range times ◌+ℤ◌
add_hours t hours = in_range (t +ℤ times 3600000000 hours)

-- bytes.fromhex(text)
unfoldable pub fromhex : String → Result Bytes
unfolding bytes_from_hex
fromhex text = elim (bytes_from_hex text) [
  | none ↦ err (value_error "non-hexadecimal number found in fromhex() arg")
  | some bs ↦ ok bs
]

-- _ALGO_BY_NAME[name]
unfoldable pub algorithm_named : String → Result SignatureAlgorithm
unfolding algo_by_name
algorithm_named name = elim (algo_by_name name) [ none ↦ err (key_error name) | some a ↦ ok a ]

module _ (p : Platform) where
  -- CAService._get_ca
  unfoldable pub get_ca : String → Exec (World p) CertificateAuthority
  get_ca name = do
    ca ← read_db (ca_named name)
    or_raise ca (lookup_error (glue "CA '" (glue name "' not found")))

  -- audit.record on the service's session
  unfoldable pub audit_record : String → Event → Exec (World p) (Unit {0})
  audit_record secret e = do
    timestamp ← now
    with_db (λ db.
        ok (record db { audit_log = (record_entry p.audit secret e timestamp db.audit_log).1 }))
