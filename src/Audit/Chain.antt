-- ===== src/Audit/Chain.antt =====
-- audit.py: the relation between the rows that `verify_chain` tests, and new rows.
use pkica.Base.{
  ℕ, String, ◌≡◌, refl, true, none, some, List, [], ◌∷◌, ◌++◌, arith, eq_iff, ◌∙◌, ◌↔◌,
  Option-cases, inl, inr,
}
use pkica.Base.Int.{ℤ}
use pkica.Effect.{ok}
use pkica.Audit.{
  AuditLib, AuditLogEntry, AuditTable, Details, Event, genesis_hash, entry_hash_of, last_hash,
  details_or_empty, new_entry, record_entry, verify_from, verify_chain,
}

-- The documented behaviour of the JSON codec: what was written is read back.
pub record IsCodec (lib : AuditLib) : Type 0 where
  pub loads-dumps : (d : Details) → lib.loads (lib.dumps d) ≡ some d

module _ (lib : AuditLib) (secret : String) where
  -- One row is linked to the hash of the row before it: the documented meaning of the chain.
  pub record Linked (prev : String) (e : AuditLogEntry) : Type 0 where
    pub details : Details
    pub loaded : lib.loads e.details ≡ some details
    pub prev_hash : e.prev_hash ≡ prev
    pub entry_hash :
        entry_hash_of lib secret prev e.actor e.action e.resource details e.timestamp_iso
        ≡ e.entry_hash

  pub data Chained : String → List AuditLogEntry → Type 0 where
    genesis : (prev : String) → Chained prev []
    link :
        {prev : String} {e : AuditLogEntry} {es : List AuditLogEntry}
        → Linked prev e
        → Chained e.entry_hash es
        → Chained prev (e ∷ es)

  abbrev pub Accepted : String → List AuditLogEntry → Type 0
  Accepted prev rows = verify_from lib secret prev rows ≡ ok (true, none)

  pub verify_from-cons :
      (prev : String) (e : AuditLogEntry) (es : List AuditLogEntry)
      → Linked prev e
      → verify_from lib secret prev (e ∷ es) ≡ verify_from lib secret e.entry_hash es
  unfolding verify_from
  verify_from-cons prev e es h = ground (
    arith,
    h.loaded,
    h.prev_hash,
    h.entry_hash,
    eq_iff (entry_hash_of lib secret prev e.actor e.action e.resource h.details e.timestamp_iso)
        e.entry_hash,
    eq_iff e.prev_hash prev,
  )

  -- An accepted first row is linked, and the rest is accepted after it.
  pub Accepted-Linked :
      (prev : String) (e : AuditLogEntry) (es : List AuditLogEntry)
      → Accepted prev (e ∷ es)
      → Linked prev e × Accepted e.entry_hash es
  unfolding verify_from
  Accepted-Linked prev e es h = elim (Option-cases (lib.loads e.details)) [
    | inl broken ↦ absurd (ground arith)
    | inr (d, loaded) ↦
        let hash = entry_hash_of lib secret prev e.actor e.action e.resource d e.timestamp_iso in
        (
          record {
            details = d;
            loaded = loaded;
            prev_hash = ground (arith, eq_iff hash e.entry_hash, eq_iff e.prev_hash prev);
            entry_hash = ground (arith, eq_iff hash e.entry_hash, eq_iff e.prev_hash prev);
          },
          ground (arith, eq_iff hash e.entry_hash, eq_iff e.prev_hash prev),
        )
  ]

  Chained-Accepted :
      (prev : String) (rows : List AuditLogEntry) → Chained prev rows → Accepted prev rows
  unfolding verify_from
  Chained-Accepted prev [] c = refl
  Chained-Accepted prev (e ∷ es) (link l c) =
      verify_from-cons prev e es l ∙ Chained-Accepted e.entry_hash es c

  Accepted-Chained :
      (prev : String) (rows : List AuditLogEntry) → Accepted prev rows → Chained prev rows
  Accepted-Chained prev [] h = genesis prev
  Accepted-Chained prev (e ∷ es) h =
      let (l, rest) = Accepted-Linked prev e es h in link l (Accepted-Chained e.entry_hash es rest)

  -- `verify_chain` accepts a table exactly when every row is linked to the row before it, the
  -- first to the genesis hash.
  pub verify_chain-iff-Chained :
      (rows : List AuditLogEntry)
      → (verify_chain lib secret rows ≡ ok (true, none)) ↔ Chained genesis_hash rows
  unfolding verify_chain
  verify_chain-iff-Chained rows =
      (Accepted-Chained genesis_hash rows, Chained-Accepted genesis_hash rows)

  -- after accepted rows, verification goes on from the hash of the last of them
  pub verify_from-append :
      (prev : String) (xs ys : List AuditLogEntry)
      → Accepted prev xs
      → verify_from lib secret prev (xs ++ ys) ≡ verify_from lib secret (last_hash prev xs) ys
  unfolding last_hash
  verify_from-append prev [] ys h = refl
  verify_from-append prev (x ∷ xs) ys h =
      let (l, rest) = Accepted-Linked prev x xs h in
      verify_from-cons prev x (xs ++ ys) l ∙ verify_from-append x.entry_hash xs ys rest

  -- the rows before a point of an accepted table are accepted, and so are those behind it
  pub Accepted-append :
      (prev : String) (xs ys : List AuditLogEntry)
      → Accepted prev (xs ++ ys)
      → Accepted prev xs × Accepted (last_hash prev xs) ys
  unfolding verify_from last_hash
  Accepted-append prev [] ys h = (refl, h)
  Accepted-append prev (x ∷ xs) ys h =
      let (l, rest) = Accepted-Linked prev x (xs ++ ys) h in
      let (left, right) = Accepted-append x.entry_hash xs ys rest in
      (verify_from-cons prev x xs l ∙ left, right)

  pub new_entry-Linked :
      IsCodec lib
      → (e : Event) (now : ℤ) (seq : ℕ) (rows : List AuditLogEntry)
      → Linked (last_hash genesis_hash rows) (new_entry lib secret e now seq rows)
  unfolding new_entry
  new_entry-Linked codec e now seq rows = record {
    details = details_or_empty e.details;
    loaded = codec.loads-dumps (details_or_empty e.details);
    prev_hash = refl;
    entry_hash = refl;
  }

  -- A table that verifies still verifies after `record` has written a row, whatever the event.
  pub verify_chain-record_entry :
      IsCodec lib
      → (e : Event) (now : ℤ) (t : AuditTable) → verify_chain lib secret t.rows ≡ ok (true, none)
      → verify_chain lib secret (record_entry lib secret e now t).1.rows ≡ ok (true, none)
  unfolding verify_chain record_entry
  verify_chain-record_entry codec e now t h =
      let entry = new_entry lib secret e now t.next_seq t.rows in
      verify_from-append genesis_hash t.rows (entry ∷ []) h
      ∙ verify_from-cons (last_hash genesis_hash t.rows) entry []
          (new_entry-Linked codec e now t.next_seq t.rows)
