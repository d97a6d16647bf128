-- ===== src/Kms/Custody.antt =====
-- common/pkicore/pkicore/kms/software.py: a key that was created is the key that is used.
use pkica.Base.{
  ℕ, ◌+◌, String, ◌≡◌, refl, sym, ap, ◌∙◌, false, [], ◌∷◌, ◌++◌, ◌==◌, inl, inr, ◌⊎◌, length,
}
use Prim.Native.String.{◌++◌ as glue}
use pkica.Text.{contains}
use pkica.Asn1.{Bytes}
use pkica.Effect.{Error, Result, continue, ok, err, pure, lift, and_then, ◌>>=◌}
use pkica.Kms.{KeySpec}
use pkica.Kms.Software.{
  SoftwareLib, Store, key_file, take, drop, draw, write_file, read_file, generate, create_key,
  opened, load_private,
}

-- What was encrypted is decrypted under the same nonce and text, loading undoes the writing of a key, and
-- urandom gives as many octets as it is asked for. A file that was written is read as it was written, and
-- a file of another name in the directory as before.
pub record IsCustodian (lib : SoftwareLib) : Type 0 where
  pub decrypt-encrypt :
      (nonce bytes sealed : Bytes) (key_id : String)
      → lib.encrypt nonce bytes key_id ≡ ok sealed
      → lib.decrypt nonce sealed key_id ≡ ok bytes
  pub load-private_bytes :
      (key : lib.PrivateKey) → lib.load_pem_private_key (lib.private_bytes key) ≡ ok key
  pub length-urandom_at : (k : ℕ) → length (lib.urandom_at 12 k) ≡ 12
  pub read-write :
      (path : lib.FilePath) (bytes : Bytes) (disk : lib.Disk)
      → (lib.write_bytes path bytes disk).0 ≡ ok tt
      → lib.read_bytes path (lib.write_bytes path bytes disk).1 ≡ ok bytes
  pub read_other-write :
      (a b : String) (bytes : Bytes) (disk : lib.Disk)
      → contains b'/' a ≡ false
      → contains b'/' b ≡ false
      → (a == b) ≡ false
      → lib.read_bytes
          (lib.child (glue b ".enc"))
          (lib.write_bytes (lib.child (glue a ".enc")) bytes disk).1
        ≡ lib.read_bytes (lib.child (glue b ".enc")) disk

take-append : (front back : Bytes) → take (length front) (front ++ back) ≡ front
unfolding take
take-append [] back = refl
take-append (b ∷ front) back = rw (take-append front back) refl

drop-append : (front back : Bytes) → drop (length front) (front ++ back) ≡ back
unfolding drop
drop-append [] back = refl
drop-append (b ∷ front) back = drop-append front back

returned_or_raised :
    {A : Type 0} (r : Result A) → ((a : A) × (r ≡ ok a)) ⊎ ((e : Error) × (r ≡ err e))
returned_or_raised (ok a) = inl (a, refl)
returned_or_raised (err e) = inr (e, refl)

module _ (lib : SoftwareLib) (laws : IsCustodian lib) where
  opened-encrypt :
      (key_id : String) (k : ℕ) (key : lib.PrivateKey) (sealed : Bytes)
      → lib.encrypt (lib.urandom_at 12 k) (lib.private_bytes key) key_id ≡ ok sealed
      → opened lib key_id (lib.urandom_at 12 k ++ sealed) ≡ ok key
  unfolding opened
  opened-encrypt key_id k key sealed e =
      let nonce = lib.urandom_at 12 k in
      let front : take 12 (nonce ++ sealed) ≡ nonce =
        ap (λ n. take n (nonce ++ sealed)) (sym (laws.length-urandom_at k))
        ∙ take-append nonce sealed in
      let back : drop 12 (nonce ++ sealed) ≡ sealed =
        ap (λ n. drop n (nonce ++ sealed)) (sym (laws.length-urandom_at k))
        ∙ drop-append nonce sealed in
      rw front (
        rw back (
          rw (laws.decrypt-encrypt nonce (lib.private_bytes key) sealed key_id e)
            (laws.load-private_bytes key)))

  loaded :
      (key_id : String) (s : Store lib) (file : Result Bytes)
      → lib.read_bytes (key_file lib key_id) s.disk ≡ file
      → load_private lib key_id s ≡ (and_then file (opened lib key_id), s)
  unfolding load_private ◌>>=◌ lift read_file
  loaded key_id s (err e) h = rw h refl
  loaded key_id s (ok blob) h = rw h refl

  abbrev path_of : KeySpec → lib.FilePath
  path_of spec = key_file lib spec.key_id

  -- the file's octets, and the store behind the creation of a key
  abbrev blob_of : Bytes → Store lib → Bytes
  blob_of sealed s = lib.urandom_at 12 (s.calls + 1) ++ sealed

  abbrev stored : KeySpec → Bytes → Store lib → Store lib
  stored spec sealed s = record {
    disk = (lib.write_bytes (path_of spec) (blob_of sealed s) s.disk).1;
    calls = s.calls + 1 + 1;
  }

  -- the last steps of create_key
  abbrev ended : KeySpec → Bytes → Store lib → Result (Unit {0}) → Result String × Store lib
  ended spec sealed s outcome = continue outcome (λ _. pure spec.key_id) (stored spec sealed s)

  run :
      (spec : KeySpec) (s : Store lib) (key : lib.PrivateKey) (sealed : Bytes)
      → generate lib spec.algorithm s.calls ≡ ok key
      → lib.encrypt (lib.urandom_at 12 (s.calls + 1)) (lib.private_bytes key) spec.key_id
        ≡ ok sealed
      → create_key lib spec s
        ≡ ended spec sealed s (lib.write_bytes (path_of spec) (blob_of sealed s) s.disk).0
  unfolding create_key ◌>>=◌ draw lift write_file
  run spec s key sealed e k = rw e (rw k refl)

  no_key :
      (spec : KeySpec) (s : Store lib) (x : Error)
      → generate lib spec.algorithm s.calls ≡ err x
      → (create_key lib spec s).0 ≡ err x
  unfolding create_key ◌>>=◌ draw lift
  no_key spec s x e = rw e refl

  not_sealed :
      (spec : KeySpec) (s : Store lib) (key : lib.PrivateKey) (x : Error)
      → generate lib spec.algorithm s.calls ≡ ok key
      → lib.encrypt (lib.urandom_at 12 (s.calls + 1)) (lib.private_bytes key) spec.key_id ≡ err x
      → (create_key lib spec s).0 ≡ err x
  unfolding create_key ◌>>=◌ draw lift
  not_sealed spec s key x e k = rw e (rw k refl)

  after_end :
      (spec : KeySpec) (sealed : Bytes) (s s' : Store lib) (key_id : String)
      (outcome : Result (Unit {0}))
      → ended spec sealed s outcome ≡ (ok key_id, s')
      → (key_id ≡ spec.key_id) × (outcome ≡ ok tt) × (s' ≡ stored spec sealed s)
  unfolding pure
  after_end spec sealed s s' key_id (ok u) h =
      let same : ok spec.key_id ≡ ok key_id = ap {A = Result String × Store lib} (λ r. r.0) h in
      (cc, refl, sym (ap {A = Result String × Store lib} (λ r. r.1) h))
  after_end spec sealed s s' key_id (err x) h =
      let same : ◌≡◌ {A = Result String} (err x) (ok key_id) =
        ap {A = Result String × Store lib} (λ r. r.0) h in
      absurd cc

  -- A creation that returned has generated a key, encrypted it and written the file.
  made :
      (spec : KeySpec) (s s' : Store lib) (key_id : String) (generated : Result lib.PrivateKey)
      → generate lib spec.algorithm s.calls ≡ generated
      → create_key lib spec s ≡ (ok key_id, s')
      → (key : lib.PrivateKey) × (sealed : Bytes) × (generate lib spec.algorithm s.calls ≡ ok key)
        × (lib.encrypt (lib.urandom_at 12 (s.calls + 1)) (lib.private_bytes key) spec.key_id
            ≡ ok sealed)
        × (key_id ≡ spec.key_id)
        × ((lib.write_bytes (path_of spec) (blob_of sealed s) s.disk).0 ≡ ok tt)
        × (s' ≡ stored spec sealed s)
  made spec s s' key_id (err x) e h =
      let same : ◌≡◌ {A = Result String} (err x) (ok key_id) =
        sym (no_key spec s x e) ∙ ap {A = Result String × Store lib} (λ r. r.0) h in
      absurd cc
  made spec s s' key_id (ok key) e h =
      elim (returned_or_raised
        (lib.encrypt (lib.urandom_at 12 (s.calls + 1)) (lib.private_bytes key) spec.key_id)) [
          | inl (sealed, k) ↦
              let (named, wrote, behind) =
                after_end spec sealed s s' key_id _ (sym (run spec s key sealed e k) ∙ h) in
              (key, sealed, e, k, named, wrote, behind)
          | inr (x, k) ↦
              let same : ◌≡◌ {A = Result String} (err x) (ok key_id) =
                sym (not_sealed spec s key x e k)
                ∙ ap {A = Result String × Store lib} (λ r. r.0) h in
              absurd cc
        ]

-- A key that was created is the key that is used: its identifier is the one that was asked for, the
-- key that was generated is what is loaded under it from then on, and under every other identifier
-- what was loaded before, for identifiers without `/`.
pub create_key-load_private :
    (lib : SoftwareLib) (spec : KeySpec) (s s' : Store lib) (key_id other : String)
    → IsCustodian lib
    → create_key lib spec s ≡ (ok key_id, s')
    → contains b'/' spec.key_id ≡ false
    → contains b'/' other ≡ false
    → (spec.key_id == other) ≡ false
    → (key_id ≡ spec.key_id)
      × (key : lib.PrivateKey) × (generate lib spec.algorithm s.calls ≡ ok key)
      × (load_private lib key_id s' ≡ (ok key, s'))
      × ((load_private lib other s').0 ≡ (load_private lib other s).0)
create_key-load_private lib spec s s' key_id other laws h one_name other_name differs =
    let (key, sealed, generated, k, named, wrote, behind) =
      made lib laws spec s s' key_id _ refl h in
    let after = stored lib laws spec sealed s in
    let blob = blob_of lib laws sealed s in
    let mine : load_private lib spec.key_id after ≡ (ok key, after) =
      loaded lib laws spec.key_id after (ok blob)
        (laws.read-write (key_file lib spec.key_id) blob s.disk wrote)
      ∙ ap (λ r. (r, after)) (opened-encrypt lib laws spec.key_id (s.calls + 1) key sealed k) in
    let theirs : (load_private lib other after).0 ≡ (load_private lib other s).0 =
      ap (λ r. r.0)
        (loaded lib laws other after _
          (laws.read_other-write spec.key_id other blob s.disk one_name other_name differs))
      ∙ ap (λ r. r.0) (sym (loaded lib laws other s _ refl)) in
    (named, key, generated, rw behind (rw named mine), rw behind theirs)
