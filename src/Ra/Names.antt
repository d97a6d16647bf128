-- ===== src/Ra/Names.antt =====
-- services/ra/app/service.py: the names of a request, from its submission to its approval.
use Prim.Native.Char.{Char}
use Prim.Native.String.{◌++◌ as glue, [] as nil, ◌∷◌ as cons}
use Prim.Native.String.append
use pkica.Base.{
  String, ◌≡◌, refl, sym, ap, Bool, true, false, List, [], ◌∷◌, ◌==◌, All, eq_iff, arith,
  Bool-cases, inl, inr,
}
use pkica.Text.{join, contains}
use pkica.Text.Join.{split-join}
use pkica.Json.{nonempty}
use pkica.Effect.{Result, ok, err}
use pkica.Effect.Gives.{OfResult, Gives, Gives-after, Gives-pure, Gives-raise}
use pkica.Models.{CertProfile, CertificateRequest}
use pkica.Platform.{Platform}
use pkica.Ra.Client.{CaClient, Issued, Site}
use pkica.Ra.Service.{stored_sans, conclude, issue_request, issue_unless, submit_request}

-- A name is some text without a comma.
abbrev pub IsName : String → Type 0
IsName name = (nonempty name ≡ true) × (contains b',' name ≡ false)

without_comma : (names : List String) → All IsName names → All (λ n. contains b',' n ≡ false) names
without_comma [] h = tt
without_comma (n ∷ names) h = (h.0.1, without_comma names h.1)

not_empty : (d : Char) (s : String) → (cons d s == "") ≡ false
not_empty d s = elim (Bool-cases (cons d s == "")) [
  | inr other ↦ other
  | inl same ↦
      let e : cons d s ≡ "" = ground (arith, eq_iff (cons d s) "", same) in
      let contrary : nonempty (cons d s) ≡ nonempty "" = ap nonempty e in absurd cc
]

filled : (name rest : String) → nonempty name ≡ true → (glue name rest == "") ≡ false
filled nil rest h = absurd cc
filled (cons d name) rest h = rw append.cons (not_empty d (glue name rest))

joined_filled :
    (name : String) (names : List String)
    → nonempty name ≡ true
    → (join "," (name ∷ names) == "") ≡ false
unfolding join
joined_filled nil [] h = absurd cc
joined_filled (cons d name) [] h = not_empty d name
joined_filled name (n ∷ names) h = filled name _ h

-- The names that are stored as one text are read again.
stored_sans-join : (names : List String) → All IsName names → stored_sans (join "," names) ≡ names
unfolding stored_sans join
stored_sans-join [] h = refl
stored_sans-join (n ∷ names) h =
    rw (joined_filled n names h.0.0) (split-join "," n names (without_comma (n ∷ names) h))

module _ (p : Platform) (c : CaClient) (secret : String) (names : List String) where
  abbrev Named : CertificateRequest → Type 0
  Named r = stored_sans r.requested_sans ≡ names

  conclude-Named :
      (req : CertificateRequest) (actor : String) (r : Result Issued)
      → Named req
      → Gives Named (conclude p c secret req actor r)
  unfolding conclude
  conclude-Named req actor (ok i) h =
      Gives-after _ _ λ at. Gives-after _ _ λ _. Gives-after _ _ λ _. Gives-pure _ h
  conclude-Named req actor (err e) h = Gives-after _ _ λ _. Gives-after _ _ λ _. Gives-raise e

  issue_unless-Named :
      (b : Bool) (req : CertificateRequest) (profile : CertProfile) (sans : List String)
      (actor : String)
      → Named req
      → Gives Named (issue_unless p c secret b req profile sans actor)
  unfolding issue_unless issue_request
  issue_unless-Named true req profile sans actor h = Gives-pure req h
  issue_unless-Named false req profile sans actor h =
      Gives-after _ _ λ found. Gives-after _ _ λ result. conclude-Named req actor result h

  submit_request-Named :
      (profile_name protocol requester csr_pem : String)
      → All IsName names
      → Gives Named (submit_request p c secret profile_name protocol requester csr_pem names)
  unfolding submit_request
  submit_request-Named profile_name protocol requester csr_pem h = Gives-after _ _ λ found.
      Gives-after _ _ λ profile. Gives-after _ _ λ _. Gives-after _ _ λ _. Gives-after _ _ λ id.
        Gives-after _ _
          λ _. Gives-after _ _ λ _. issue_unless-Named _ _ _ _ _ (stored_sans-join names h)

  returned :
      (outcome : Result CertificateRequest) (r : CertificateRequest)
      → OfResult Named outcome
      → outcome ≡ ok r
      → Named r
  returned (ok x) r h e = let same : x ≡ r = cc in rw (sym same) h
  returned (err x) r h e = absurd cc

  -- The names of a request are kept as they were submitted: what the approval reads from the row that
  -- a submission returned, whether the request waits or was issued at once, are the names that were
  -- given, when none is empty or holds a comma.
  pub submit_request-stored_sans :
      (profile_name protocol requester csr_pem : String) (s : Site p c) (r : CertificateRequest)
      → All IsName names
      → (submit_request p c secret profile_name protocol requester csr_pem names s).0 ≡ ok r
      → stored_sans r.requested_sans ≡ names
  submit_request-stored_sans profile_name protocol requester csr_pem s r h e =
      returned _ r ((submit_request-Named profile_name protocol requester csr_pem h).gives s) e
