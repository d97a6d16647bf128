-- ===== src/Scep/Restart.antt =====
-- services/scep/app/main.py: the key pair over requests and restarts.
use pkica.Base.{ℕ, ◌≡◌, refl, ◌∙◌, true, Option, none, some, List, [], ◌∷◌, Bool-cases, inl, inr}
use pkica.Asn1.{Bytes}
use pkica.Effect.{Error, ok, or_raise, Exec, ◌>>=◌}
use pkica.Effect.Keeps.{Keeps, Keeps-if, keeps_rules}
use pkica.Ra.Http.{RaClient}
use pkica.Ra.Client.{CaClient}
use pkica.Scep.Keys.{
  ScepLib, Server, ask_ra, ask_ca, read_file, draw, write_key, write_crt, has_both, new_keypair,
  ensure_ra_keypair, load_ra_key, load_ra_cert_der,
}
use pkica.Scep.Server.{
  Request, get_scep, post_scep, healthz, reply_with, handle_pki_operation, ca_certificate,
  get_operation, scep_get, scep_post, handle, handle_all,
}

-- The files are these.
pub record Files {ra : RaClient} {ca : CaClient} (key crt : Option Bytes) (s : Server ra ca)
    : Type 0 where
  pub same_key : s.ra_key ≡ key
  pub same_crt : s.ra_crt ≡ crt

module _ {ra : RaClient} {ca : CaClient} {key crt : Option Bytes} where
  Keeps-ask_ra :
      {A : Type 0} (m : Exec ra.Remote A) → Keeps (Files {ra = ra} {ca = ca} key crt) (ask_ra m)
  unfolding ask_ra
  Keeps-ask_ra m = record { at = λ s h. record { same_key = h.same_key; same_crt = h.same_crt } }

  Keeps-ask_ca :
      {A : Type 0} (m : Exec ca.Remote A) → Keeps (Files {ra = ra} {ca = ca} key crt) (ask_ca m)
  unfolding ask_ca
  Keeps-ask_ca m = record { at = λ s h. record { same_key = h.same_key; same_crt = h.same_crt } }

  Keeps-draw :
      {A : Type 0} (source : ℕ → A) → Keeps (Files {ra = ra} {ca = ca} key crt) (draw source)
  unfolding draw
  Keeps-draw source = record { at = λ s h. record { same_key = h.same_key; same_crt = h.same_crt } }

  found_file :
      (file : Option Bytes) (e : Error) (s : Server ra ca)
      → Files key crt s
      → Files key crt (or_raise file e s).1
  unfolding or_raise
  found_file none e s h = h
  found_file (some b) e s h = h

  Keeps-read_file :
      (file : Server ra ca → Option Bytes)
      → Keeps (Files {ra = ra} {ca = ca} key crt) (read_file file)
  unfolding read_file
  Keeps-read_file file = record { at = λ s h. found_file (file s) _ s h }

ruleset file_rules =
    (keeps_rules, Keeps-if, Keeps-ask_ra, Keeps-ask_ca, Keeps-draw, Keeps-read_file)

module _ (lib : ScepLib) {ra : RaClient} {ca : CaClient} {key crt : Option Bytes} where
  Keeps-operation :
      (der : Bytes) → Keeps (Files {ra = ra} {ca = ca} key crt) (handle_pki_operation lib der)
  unfolding handle_pki_operation reply_with load_ra_key load_ra_cert_der
  Keeps-operation der = search file_rules depth 40

  handle-Files : (q : Request) → Keeps (Files {ra = ra} {ca = ca} key crt) (handle lib q)
  unfolding handle scep_get scep_post get_operation ca_certificate
  handle-Files healthz = search file_rules depth 8
  handle-Files (post_scep operation body) = search (file_rules, Keeps-operation) depth 20
  handle-Files (get_scep operation none) = search file_rules depth 24
  handle-Files (get_scep operation (some encoded)) = search (file_rules, Keeps-operation) depth 24

  handle_all-Files :
      (qs : List Request) (s : Server ra ca) → Files key crt s → Files key crt (handle_all lib qs s)
  unfolding handle_all
  handle_all-Files [] s h = h
  handle_all-Files (q ∷ qs) s h = handle_all-Files qs (handle lib q s).1 ((handle-Files q).at s h)

module _ (lib : ScepLib) {ra : RaClient} {ca : CaClient} where
  both_there : (s : Server ra ca) → has_both (ensure_ra_keypair lib s).1 ≡ true
  unfolding ensure_ra_keypair new_keypair ◌>>=◌ draw write_key write_crt
  both_there s = elim (Bool-cases (has_both s)) [ inl e ↦ rw e e | inr e ↦ rw e refl ]

  ensured : (s : Server ra ca) → has_both s ≡ true → ensure_ra_keypair lib s ≡ (ok tt, s)
  unfolding ensure_ra_keypair
  ensured s h = rw h refl

  both_as_before : (s t : Server ra ca) → Files s.ra_key s.ra_crt t → has_both t ≡ has_both s
  both_as_before s t h = rw h.same_key (rw h.same_crt refl)

  -- The service keeps the key pair that it has made or found at its start: after any requests, its key
  -- and its certificate are the same, and a second start changes nothing.
  pub ensure_ra_keypair-handle_all :
      (qs : List Request) (s : Server ra ca)
      → ((handle_all lib qs (ensure_ra_keypair lib s).1).ra_key
          ≡ (ensure_ra_keypair lib s).1.ra_key)
        × ((handle_all lib qs (ensure_ra_keypair lib s).1).ra_crt
            ≡ (ensure_ra_keypair lib s).1.ra_crt)
        × (ensure_ra_keypair lib (handle_all lib qs (ensure_ra_keypair lib s).1)
            ≡ (ok tt, handle_all lib qs (ensure_ra_keypair lib s).1))
  ensure_ra_keypair-handle_all qs s =
      let start = (ensure_ra_keypair lib s).1 in
      let kept = handle_all-Files lib qs start (record { same_key = refl; same_crt = refl }) in
      (
        kept.same_key,
        kept.same_crt,
        ensured (handle_all lib qs start)
            (both_as_before start (handle_all lib qs start) kept ∙ both_there s),
      )
