-- ===== src/Tests/AuditRuns.antt =====
-- The theorems on the audit log at concrete inputs.
use Prim.Native.String.{◌++◌ as glue}
use pkica.Base.{String, ◌≡◌, ◌≢◌, refl, true, false, none, some, [], ◌∷◌, ◌==◌, ◌↔◌, arith, eq_iff}
use pkica.Base.Int.{pos}
use pkica.Effect.{ok}
use pkica.Text.{join}
use pkica.Audit.{
  AuditLogEntry, AuditTable, Event, text, genesis_hash, payload, entry_hash_of, last_hash,
  new_entry, record_entry, verify_chain,
}
use pkica.Audit.Chain.{Chained, verify_chain-iff-Chained, verify_chain-record_entry}
use pkica.Audit.Tamper.{
  verify_chain-edited, verify_chain-deleted, verify_chain-forked, verify_chain-shifted,
}
use pkica.Tests.Json.{dumps, write_text, loads-dumps}
use pkica.Tests.World.{test_audit, test_audit-IsCodec}

differs : (a b : String) → (a == b) ≡ false → a ≢ b
differs a b h p = absurd (ground (arith, eq_iff a b, h, p))

abbrev empty_table : AuditTable
empty_table = record { rows = []; next_seq = 1 }

abbrev issue_event : Event
issue_event = record {
  actor = "alice";
  action = "cert.issue";
  resource = "cert:1f";
  details = some (("ca", text "root") ∷ []);
}

abbrev revoke_event : Event
revoke_event = record {
  actor = "bob";
  action = "cert.revoke";
  resource = "cert:1f";
  details = none;
}

abbrev entry_one : AuditLogEntry
entry_one = new_entry test_audit "k" issue_event (pos 5) 1 []

abbrev entry_two : AuditLogEntry
entry_two = new_entry test_audit "k" revoke_event (pos 6) 2 (entry_one ∷ [])

abbrev one_row : AuditTable
one_row = record { rows = entry_one ∷ []; next_seq = 2 }

one_accepted : verify_chain test_audit "k" (entry_one ∷ []) ≡ ok (true, none)
one_accepted =
    unfold record_entry in
    verify_chain-record_entry test_audit "k" test_audit-IsCodec issue_event (pos 5) empty_table
      (unfold verify_chain in refl)

verify_chain-record_entry_example :
    verify_chain test_audit "k" (record_entry test_audit "k" revoke_event (pos 6) one_row).1.rows
    ≡ ok (true, none)
verify_chain-record_entry_example =
    verify_chain-record_entry test_audit "k" test_audit-IsCodec revoke_event (pos 6) one_row
      one_accepted

two_accepted : verify_chain test_audit "k" (entry_one ∷ entry_two ∷ []) ≡ ok (true, none)
two_accepted =
    unfold record_entry in
    verify_chain-record_entry test_audit "k" test_audit-IsCodec revoke_event (pos 6) one_row
      one_accepted

verify_chain-iff-Chained_example :
    (verify_chain test_audit "k" (entry_one ∷ entry_two ∷ []) ≡ ok (true, none))
    ↔ Chained test_audit "k" genesis_hash (entry_one ∷ entry_two ∷ [])
verify_chain-iff-Chained_example =
    verify_chain-iff-Chained test_audit "k" (entry_one ∷ entry_two ∷ [])

one_moves : entry_one.entry_hash ≢ genesis_hash
one_moves =
    unfold new_entry entry_hash_of payload join last_hash dumps write_text in differs _ _ refl

verify_chain-deleted_example : verify_chain test_audit "k" (entry_two ∷ []) ≡ ok (false, some 2)
unfolding new_entry last_hash
verify_chain-deleted_example =
    verify_chain-deleted test_audit "k" [] [] entry_one entry_two two_accepted one_moves

fork_moves :
    (new_entry test_audit "k" issue_event (pos 7) 2 (entry_one ∷ [])).entry_hash
    ≢ last_hash genesis_hash (entry_one ∷ [])
fork_moves =
    unfold new_entry entry_hash_of payload join last_hash dumps write_text in differs _ _ refl

verify_chain-forked_example :
    verify_chain test_audit "k" (
      entry_one
      ∷ new_entry test_audit "k" issue_event (pos 7) 2 (entry_one ∷ [])
      ∷ new_entry test_audit "k" revoke_event (pos 8) 3 (entry_one ∷ [])
      ∷ [])
    ≡ ok (false, some 3)
verify_chain-forked_example =
    verify_chain-forked test_audit "k" test_audit-IsCodec issue_event revoke_event (pos 7) (pos 8)
      one_row one_accepted fork_moves

verify_chain-shifted_example :
    verify_chain test_audit "k"
      (record entry_one { actor = "alice"; action = glue "as" (glue "|" "cert.issue") } ∷ [])
    ≡ verify_chain test_audit "k"
        (record entry_one { actor = glue "alice" (glue "|" "as"); action = "cert.issue" } ∷ [])
verify_chain-shifted_example =
    verify_chain-shifted test_audit "k" [] [] entry_one "alice" "as" "cert.issue"

abbrev edited_entry : AuditLogEntry
edited_entry = record entry_one { actor = "mallory" }

edit_shows :
    payload test_audit genesis_hash "mallory" "cert.issue" "cert:1f"
      (("ca", text "root") ∷ [])
      entry_one.timestamp_iso
    ≢ payload test_audit genesis_hash "alice" "cert.issue" "cert:1f"
        (("ca", text "root") ∷ [])
        entry_one.timestamp_iso
edit_shows = unfold new_entry payload join dumps write_text in differs _ _ refl

hash_differs :
    test_audit.hmac_sha256 "k" (
      payload test_audit genesis_hash "mallory" "cert.issue" "cert:1f"
        (("ca", text "root") ∷ [])
        entry_one.timestamp_iso)
    ≢ test_audit.hmac_sha256 "k" (
        payload test_audit genesis_hash "alice" "cert.issue" "cert:1f"
          (("ca", text "root") ∷ [])
          entry_one.timestamp_iso)
hash_differs = unfold new_entry payload join dumps write_text in differs _ _ refl

verify_chain-edited_example :
    verify_chain test_audit "k" (edited_entry ∷ entry_two ∷ []) ≡ ok (false, some 1)
unfolding new_entry dumps last_hash
verify_chain-edited_example =
    verify_chain-edited test_audit "k" [] (entry_two ∷ []) entry_one edited_entry
      (("ca", text "root") ∷ []) (("ca", text "root") ∷ []) two_accepted
      (loads-dumps (("ca", text "root") ∷ [])) (loads-dumps (("ca", text "root") ∷ [])) refl
      edit_shows (λ p. absurd (hash_differs p))
