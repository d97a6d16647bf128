-- ===== src/Ca/Gate.antt =====
-- services/ca/app/api.py: the identity check of each route, and requests of peers that are not
-- named for it.
use pkica.Base.{String, ◌≡◌, ◌∙◌, refl, Bool, false, ◌&&◌, List, [], ◌∷◌, member, All, arith}
use pkica.Text.{upper_equals}
use pkica.Effect.{Result, ok, err, Exec, lift, ◌>>=◌}
use pkica.Effect.Keeps.{Keeps, Keeps-after_lift, keeps_rules}
use pkica.Auth.{Headers, require_mtls_peer}
use pkica.Models.{Db, rolled_back}
use pkica.Platform.{Platform, World, read_db}
use pkica.Ca.Api.{
  Request, Reply, create_root, create_intermediate, issue, revoke, crl, sign_ocsp,
  get_ca_certificate, healthz, issuance_peers, signing_peers, admin_peers, handle,
  commit_or_rollback, serve, serve_all,
}

-- The proxy has verified the peer's certificate, and its name is one of these.
abbrev is_named : List String → Headers → Bool
is_named names h = upper_equals h.x_client_cert_verify "SUCCESS" && member h.x_client_cert_cn names

-- The peer is not named for the route; the last two routes take every peer and only read.
abbrev pub IsRefused : Headers × Request → Type 0
IsRefused (h, create_root _ _ _ _) = is_named admin_peers h ≡ false
IsRefused (h, create_intermediate _ _ _ _ _ _) = is_named admin_peers h ≡ false
IsRefused (h, issue _ _ _ _ _ _) = is_named issuance_peers h ≡ false
IsRefused (h, revoke _ _ _) = is_named issuance_peers h ≡ false
IsRefused (h, crl _) = is_named signing_peers h ≡ false
IsRefused (h, sign_ocsp _ _) = is_named signing_peers h ≡ false
IsRefused (h, get_ca_certificate _) = Unit
IsRefused (h, healthz) = Unit

module _ (p : Platform) (secret : String) (before : World p) where
  abbrev Unchanged : World p → Type 0
  Unchanged w = w ≡ before

  Keeps-refused :
      {A : Type 0} (names : List String) (h : Headers) (f : String → Exec (World p) A)
      → is_named names h ≡ false
      → Keeps Unchanged (lift (require_mtls_peer names h) >>= f)
  unfolding require_mtls_peer
  Keeps-refused names h f refused = Keeps-after_lift _ _ λ a e. absurd (ground (arith, refused, e))

  Keeps-read : {A : Type 0} (f : Db → A) → Keeps Unchanged (read_db f)
  unfolding read_db
  Keeps-read f = record { at = λ s h. h }

  handle-Unchanged :
      (a : Headers × Request) → IsRefused a → Keeps Unchanged (handle p secret a.0 a.1)
  unfolding handle
  handle-Unchanged (h, create_root _ _ _ _) r = Keeps-refused admin_peers h _ r
  handle-Unchanged (h, create_intermediate _ _ _ _ _ _) r = Keeps-refused admin_peers h _ r
  handle-Unchanged (h, issue _ _ _ _ _ _) r = Keeps-refused issuance_peers h _ r
  handle-Unchanged (h, revoke _ _ _) r = Keeps-refused issuance_peers h _ r
  handle-Unchanged (h, crl _) r = Keeps-refused signing_peers h _ r
  handle-Unchanged (h, sign_ocsp _ _) r = Keeps-refused signing_peers h _ r
  handle-Unchanged (h, get_ca_certificate _) r = search (keeps_rules, Keeps-read) depth 8
  handle-Unchanged (h, healthz) r = search keeps_rules

module _ (p : Platform) (secret : String) where
  committed :
      (w : World p) (r : Result Reply) (w' : World p)
      → w' ≡ w
      → (commit_or_rollback p secret w (r, w')).1 ≡ w
  unfolding commit_or_rollback rolled_back
  committed w (ok reply) w' e = e
  committed w (err x) w' e = rw e refl

  -- A history of requests from peers that are not named for the routes they call leaves tables, log
  -- and key store of the CA as they were.
  pub serve_all-Refused :
      (rs : List (Headers × Request)) (w : World p) → All IsRefused rs → serve_all p secret rs w ≡ w
  unfolding serve_all serve
  serve_all-Refused [] w l = refl
  serve_all-Refused ((h, r) ∷ rs) w l =
      let (reply, w') = handle p secret h r w in
      let same = committed w reply w' ((handle-Unchanged p secret w (h, r) l.0).at w refl) in
      serve_all-Refused rs (commit_or_rollback p secret w (reply, w')).1 l.1 ∙ same
