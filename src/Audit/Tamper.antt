-- ===== src/Audit/Tamper.antt =====
-- audit.py: which changes of the table `verify_chain` finds, and which it does not.
use Prim.Native.String.{◌++◌ as glue}
use pkica.Base.{
  ap, Option-cases, inl, inr, ◌+◌, String, ◌≡◌, ◌≢◌, sym, ◌∙◌, true, false, none, some, List, [],
  ◌∷◌, ◌++◌, arith, eq_iff,
}
use pkica.Base.Int.{ℤ}
use pkica.Effect.{ok}
use pkica.Audit.{
  AuditLib, AuditLogEntry, AuditTable, Details, Event, genesis_hash, payload, entry_hash_of,
  last_hash, details_or_empty, new_entry, verify_from, verify_chain,
}
use pkica.Audit.Chain.{
  IsCodec, Accepted-Linked, Accepted-append, verify_from-append, verify_from-cons, new_entry-Linked,
}
use text.Mathlib.TextLemmas.{append_assoc}

module _ (lib : AuditLib) (secret : String) where
  -- a row that names another predecessor is where verification stops
  wrong_prev :
      (prev : String) (e : AuditLogEntry) (es : List AuditLogEntry) (d : Details)
      → lib.loads e.details ≡ some d
      → e.prev_hash ≢ prev
      → verify_from lib secret prev (e ∷ es) ≡ ok (false, some e.seq)
  unfolding verify_from
  wrong_prev prev e es d loaded ne = ground (arith, eq_iff e.prev_hash prev)

  -- a row whose hash is not the hash of its fields is where verification stops
  wrong_hash :
      (prev : String) (e : AuditLogEntry) (es : List AuditLogEntry) (d : Details)
      → lib.loads e.details ≡ some d
      → entry_hash_of lib secret prev e.actor e.action e.resource d e.timestamp_iso ≢ e.entry_hash
      → verify_from lib secret prev (e ∷ es) ≡ ok (false, some e.seq)
  unfolding verify_from
  wrong_hash prev e es d loaded ne = ground (
    arith,
    eq_iff (entry_hash_of lib secret prev e.actor e.action e.resource d e.timestamp_iso)
        e.entry_hash,
  )

  -- Editing a row of an accepted table, with its hash left as it was, is found at that row: the
  -- details still parse, the text that the hash covers has changed, and the hash function has no
  -- collision between the old text and the new one.
  pub verify_chain-edited :
      (xs ys : List AuditLogEntry) (e f : AuditLogEntry) (d d' : Details)
      → verify_chain lib secret (xs ++ e ∷ ys) ≡ ok (true, none)
      → lib.loads e.details ≡ some d
      → lib.loads f.details ≡ some d'
      → f.entry_hash ≡ e.entry_hash
      → payload lib (last_hash genesis_hash xs) f.actor f.action f.resource d' f.timestamp_iso
        ≢ payload lib (last_hash genesis_hash xs) e.actor e.action e.resource d e.timestamp_iso
      → (lib.hmac_sha256 secret (
              payload lib
                (last_hash genesis_hash xs)
                f.actor
                f.action
                f.resource
                d'
                f.timestamp_iso)
            ≡ lib.hmac_sha256 secret (
                payload lib
                  (last_hash genesis_hash xs)
                  e.actor
                  e.action
                  e.resource
                  d
                  e.timestamp_iso)
          → payload lib (last_hash genesis_hash xs) f.actor f.action f.resource d' f.timestamp_iso
            ≡ payload lib (last_hash genesis_hash xs) e.actor e.action e.resource d e.timestamp_iso)
      → verify_chain lib secret (xs ++ f ∷ ys) ≡ ok (false, some f.seq)
  unfolding verify_chain entry_hash_of
  verify_chain-edited xs ys e f d d' h loaded loaded' same changed no_collision =
      let prev = last_hash genesis_hash xs in
      let (before, from) = Accepted-append lib secret genesis_hash xs (e ∷ ys) h in
      let linked = (Accepted-Linked lib secret prev e ys from).0 in
      let same_details : linked.details ≡ d = cc (linked.loaded, loaded) in
      verify_from-append lib secret genesis_hash xs (f ∷ ys) before
      ∙ wrong_hash prev f ys d' loaded'
          (λ p. changed (no_collision (p ∙ same ∙ sym (rw same_details at linked.entry_hash))))

  -- Deleting a row that is not the last is found at the row behind it, if the deleted row's hash is
  -- not its predecessor's.
  pub verify_chain-deleted :
      (xs ys : List AuditLogEntry) (e f : AuditLogEntry)
      → verify_chain lib secret (xs ++ e ∷ f ∷ ys) ≡ ok (true, none)
      → e.entry_hash ≢ e.prev_hash
      → verify_chain lib secret (xs ++ f ∷ ys) ≡ ok (false, some f.seq)
  unfolding verify_chain
  verify_chain-deleted xs ys e f h moved =
      let prev = last_hash genesis_hash xs in
      let (before, from) = Accepted-append lib secret genesis_hash xs (e ∷ f ∷ ys) h in
      let (le, rest) = Accepted-Linked lib secret prev e (f ∷ ys) from in
      let lf = (Accepted-Linked lib secret e.entry_hash f ys rest).0 in
      verify_from-append lib secret genesis_hash xs (f ∷ ys) before
      ∙ wrong_prev prev f ys lf.details lf.loaded
          (λ p. moved (sym lf.prev_hash ∙ p ∙ sym le.prev_hash))

  -- Two sessions that both read the table before either has written link their rows to the same
  -- predecessor. Both rows stored, verification fails at the second, if the first row's hash is not
  -- its predecessor's.
  pub verify_chain-forked :
      IsCodec lib
      → (a b : Event) (now later : ℤ) (t : AuditTable)
      → verify_chain lib secret t.rows ≡ ok (true, none)
      → (new_entry lib secret a now t.next_seq t.rows).entry_hash ≢ last_hash genesis_hash t.rows
      → verify_chain lib secret (
          t.rows
          ++ new_entry lib secret a now t.next_seq t.rows
            ∷ new_entry lib secret b later (t.next_seq + 1) t.rows
            ∷ [])
        ≡ ok (false, some (t.next_seq + 1))
  unfolding verify_chain new_entry
  verify_chain-forked codec a b now later t h moved =
      let first = new_entry lib secret a now t.next_seq t.rows in
      let second = new_entry lib secret b later (t.next_seq + 1) t.rows in
      let prev = last_hash genesis_hash t.rows in
      verify_from-append lib secret genesis_hash t.rows (first ∷ second ∷ []) h
      ∙ verify_from-cons lib secret prev first (second ∷ [])
          (new_entry-Linked lib secret codec a now t.next_seq t.rows)
      ∙ wrong_prev first.entry_hash second [] (details_or_empty b.details)
          (codec.loads-dumps (details_or_empty b.details)) (λ p. moved (sym p))

  payload_shifted :
      (prev a b c resource : String) (d : Details) (iso : String)
      → payload lib prev a (glue b (glue "|" c)) resource d iso
        ≡ payload lib prev (glue a (glue "|" b)) c resource d iso
  unfolding payload
  payload_shifted prev a b c resource d iso = simp append_assoc

  hash_shifted :
      (prev a b c resource : String) (d : Details) (iso : String)
      → entry_hash_of lib secret prev a (glue b (glue "|" c)) resource d iso
        ≡ entry_hash_of lib secret prev (glue a (glue "|" b)) c resource d iso
  unfolding entry_hash_of
  hash_shifted prev a b c resource d iso =
      ap (lib.hmac_sha256 secret) (payload_shifted prev a b c resource d iso)

  verify_from-shifted :
      (prev : String) (xs ys : List AuditLogEntry) (e : AuditLogEntry) (a b c : String)
      → verify_from lib secret prev
          (xs ++ record e { actor = a; action = glue b (glue "|" c) } ∷ ys)
        ≡ verify_from lib secret prev
            (xs ++ record e { actor = glue a (glue "|" b); action = c } ∷ ys)
  unfolding verify_from
  verify_from-shifted prev [] ys e a b c = elim (Option-cases (lib.loads e.details)) [
    | inl broken ↦ ground arith
    | inr (d, loaded) ↦ ground (arith, hash_shifted prev a b c e.resource d e.timestamp_iso)
  ]
  verify_from-shifted prev (x ∷ xs) ys e a b c =
      ground (arith, verify_from-shifted x.entry_hash xs ys e a b c)

  -- The fields are joined by "|" with no escape: moving text across that mark, from the end of the
  -- actor to the front of the action, changes the row and no hash, so it is not found.
  pub verify_chain-shifted :
      (xs ys : List AuditLogEntry) (e : AuditLogEntry) (a b c : String)
      → verify_chain lib secret (xs ++ record e { actor = a; action = glue b (glue "|" c) } ∷ ys)
        ≡ verify_chain lib secret (xs ++ record e { actor = glue a (glue "|" b); action = c } ∷ ys)
  unfolding verify_chain
  verify_chain-shifted xs ys e a b c = verify_from-shifted genesis_hash xs ys e a b c
