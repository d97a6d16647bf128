-- ===== src/Audit.antt =====
-- common/pkicore/pkicore/audit.py and the table `audit_log` of db/models.py: the audit log, a chain
-- of keyed hashes. The table is the list of its rows in the order of `seq`. The keyed hash, the JSON
-- codec and `isoformat` are arguments.
pub mod Chain
pub mod Tamper
use pkica.Base.{
  ℕ, ◌+◌, String, Bool, true, false, not, ◌||◌, Option, none, some, List, [], ◌∷◌, ◌++◌, ◌==◌,
  if◌then◌else◌,
}
use pkica.Base.Int.{ℤ}
use pkica.Effect.{Result, ok, err, value_error}
use pkica.Text.{join}

-- The values in the `details` of the services' entries.
pub data Scalar : Type 0 where
  text : String → Scalar
  number : ℕ → Scalar

abbrev pub Details : Type 0
Details = List (String × Scalar)

-- What audit.py calls: `hmac.new(key, message, sha256).hexdigest()`, `json.dumps(details)`,
-- `json.dumps(details, sort_keys=True)`, `json.loads` and `timestamp.isoformat()`.
pub record AuditLib : Type 0 where
  pub hmac_sha256 : String → String → String
  pub dumps : Details → String
  pub dumps_sorted : Details → String
  pub loads : String → Option Details
  pub isoformat : ℤ → String

pub record AuditLogEntry : Type 0 where
  pub seq : ℕ
  pub timestamp : ℤ
  pub timestamp_iso : String
  pub actor : String
  pub action : String
  pub resource : String
  pub details : String
  pub prev_hash : String
  pub entry_hash : String

-- The rows, and the next value of the sequence `audit_log_seq`.
pub record AuditTable : Type 0 where
  pub rows : List AuditLogEntry
  pub next_seq : ℕ

abbrev pub genesis_hash : String
genesis_hash = "0000000000000000000000000000000000000000000000000000000000000000"

-- The text that the keyed hash covers.
unfoldable pub payload : AuditLib → String → String → String → String → Details → String → String
unfolding join
payload lib prev_hash actor action resource details timestamp_iso =
    join "|" (prev_hash ∷ actor ∷ action ∷ resource ∷ lib.dumps_sorted details ∷ timestamp_iso ∷ [])

unfoldable pub entry_hash_of :
    AuditLib → String → String → String → String → String → Details → String → String
entry_hash_of lib secret prev_hash actor action resource details timestamp_iso =
    lib.hmac_sha256 secret (payload lib prev_hash actor action resource details timestamp_iso)

-- `last.entry_hash if last else _GENESIS_HASH`, for the row of the greatest `seq`.
unfoldable pub last_hash : String → List AuditLogEntry → String
last_hash prev [] = prev
last_hash prev (e ∷ es) = last_hash e.entry_hash es

-- `details or {}`
abbrev pub details_or_empty : Option Details → Details
details_or_empty none = []
details_or_empty (some d) = d

pub record Event : Type 0 where
  pub actor : String
  pub action : String
  pub resource : String
  pub details : Option Details

-- The row that `record` writes after `rows` at the time `now`.
unfoldable pub new_entry : AuditLib → String → Event → ℤ → ℕ → List AuditLogEntry → AuditLogEntry
new_entry lib secret e now seq rows =
    let details = details_or_empty e.details in
    let prev_hash = last_hash genesis_hash rows in
    let timestamp_iso = lib.isoformat now in
    record {
      seq = seq;
      timestamp = now;
      timestamp_iso = timestamp_iso;
      actor = e.actor;
      action = e.action;
      resource = e.resource;
      details = lib.dumps details;
      prev_hash = prev_hash;
      entry_hash =
          entry_hash_of lib secret prev_hash e.actor e.action e.resource details timestamp_iso;
    }

-- audit.record: the new row, with the next number of the sequence, behind the others.
unfoldable pub record_entry :
    AuditLib → String → Event → ℤ → AuditTable → AuditLogEntry × AuditTable
unfolding new_entry
record_entry lib secret e now t =
    let entry = new_entry lib secret e now t.next_seq t.rows in
    (entry, record { rows = t.rows ++ entry ∷ []; next_seq = t.next_seq + 1 })

-- The loop of `verify_chain`; `json.loads` raises on details that are no JSON.
unfoldable pub verify_from :
    AuditLib → String → String → List AuditLogEntry → Result (Bool × Option ℕ)
verify_from lib secret prev_hash [] = ok (true, none)
verify_from lib secret prev_hash (entry ∷ rest) = elim (lib.loads entry.details) [
  | none ↦ err (value_error "JSONDecodeError")
  | some details ↦
      let expected =
        entry_hash_of lib secret prev_hash entry.actor entry.action entry.resource details
          entry.timestamp_iso in
      let further = verify_from lib secret entry.entry_hash rest in
      if not (expected == entry.entry_hash) || not (entry.prev_hash == prev_hash)
      then ok (false, some entry.seq)
      else further
]

-- audit.verify_chain: (ok, first_broken_seq)
unfoldable pub verify_chain : AuditLib → String → List AuditLogEntry → Result (Bool × Option ℕ)
unfolding verify_from
verify_chain lib secret rows = verify_from lib secret genesis_hash rows
