-- ===== src/Ra/Approval.antt =====
-- services/ra/app/service.py and api.py: `require_approval` and the roles of the operators.
use pkica.Base.{
  String, ◌≡◌, refl, Bool, true, false, Option, some, List, [], ◌∷◌, All, any, member, find_first,
  arith, Bool-cases, inl, inr,
}
use pkica.Effect.{Result, ok, err, Exec, lift, ◌>>=◌}
use pkica.Effect.Keeps.{Keeps, Keeps-bind, Keeps-after_or_raise, Keeps-after_lift, keeps_rules}
use pkica.Audit.{Event}
use pkica.Auth.{Claims, roles_of, require_role}
use pkica.Models.{Db, CertProfile, CertificateRequest, profile_named, rolled_back}
use pkica.Platform.{Platform, World, now, with_db, read_db}
use pkica.Platform.Keeps.{OnDb, Keeps-with_db, Keeps-now, db_rules}
use pkica.Ca.Session.{audit_record}
use pkica.Ra.Client.{CaClient, Site, locally}
use pkica.Ra.Service.{add_request, issue_unless, submit_request}
use pkica.Ra.Api.{
  Request, Reply, submit, list_requests, approve, reject, revoke_certificate, approver_roles,
  handle, commit_or_rollback, serve, serve_all,
}
use pkica.Ra.Keeps.{OnBoth, Keeps-both_locally}

abbrev pub NeedsApproval : CertProfile → Type 0
NeedsApproval profile = profile.require_approval ≡ true

-- Every profile asks for approval.
abbrev pub AllNeedApproval : Db → Type 0
AllNeedApproval db = All NeedsApproval db.cert_profiles

-- The caller of the routes for approvers has none of their roles.
abbrev is_approver : Claims → Bool
is_approver claims = any (λ r. member r approver_roles) (roles_of claims.pkica_roles)

abbrev pub LacksApprover : Request → Type 0
LacksApprover (list_requests claims) = is_approver claims ≡ false
LacksApprover (approve claims _) = is_approver claims ≡ false
LacksApprover (reject claims _ _) = is_approver claims ≡ false
LacksApprover (revoke_certificate claims _ _) = is_approver claims ≡ false
LacksApprover _ = Unit

first_found :
    (q : CertProfile → Bool) (y : CertProfile) (ys : List CertProfile) (x : CertProfile)
    → q y ≡ true
    → NeedsApproval y
    → find_first q (y ∷ ys) ≡ some x
    → NeedsApproval x
first_found q y ys x hit h e =
    let same : some y ≡ some x = ground (arith, hit, e) in ground (arith, same, h)

found-NeedsApproval :
    (q : CertProfile → Bool) (xs : List CertProfile) (x : CertProfile)
    → All NeedsApproval xs
    → find_first q xs ≡ some x
    → NeedsApproval x
found-NeedsApproval q [] x h e = absurd cc
found-NeedsApproval q (y ∷ ys) x h e = elim (Bool-cases (q y)) [
  | inl hit ↦ first_found q y ys x hit h.0 e
  | inr miss ↦ found-NeedsApproval q ys x h.1 (ground (arith, miss, e))
]

module _ {p : Platform} where
  abbrev Guarded : World p → Type 0
  Guarded = OnDb AllNeedApproval

  Keeps-audit_record : (secret : String) (e : Event) → Keeps Guarded (audit_record p secret e)
  unfolding audit_record
  Keeps-audit_record secret e = Keeps-bind now _ Keeps-now λ t. Keeps-with_db _ λ db h. h

  Keeps-add_request : (r : CertificateRequest) → Keeps Guarded (with_db (add_request r))
  Keeps-add_request r = Keeps-with_db _ λ db h. unfold add_request in h

module _ (p : Platform) (c : CaClient) (secret : String) (before : c.Remote) where
  -- every profile asks for approval, and the CA is as it was
  abbrev Untouched : Site p c → Type 0
  Untouched = OnBoth AllNeedApproval (λ ca. ca ≡ before)

  -- the profile that a look-up by name finds asks for approval
  Keeps-profile :
      {A : Type 0} (name : String) (f : Option CertProfile → Exec (Site p c) A)
      → ((found : Option CertProfile)
          → ((profile : CertProfile) → found ≡ some profile → NeedsApproval profile)
          → Keeps Untouched (f found))
      → Keeps Untouched (locally (read_db (profile_named name)) >>= f)
  unfolding locally read_db ◌>>=◌ profile_named
  Keeps-profile name f k = record {
    at = λ s h.
        (k (profile_named name s.local.db) (λ profile found.
            found-NeedsApproval _ s.local.db.cert_profiles profile h.tables.holds found)).at
          s h;
  }

  issue_unless-Untouched :
      (b : Bool) (req : CertificateRequest) (profile : CertProfile) (sans : List String)
      (actor : String)
      → b ≡ true
      → Keeps Untouched (issue_unless p c secret b req profile sans actor)
  unfolding issue_unless
  issue_unless-Untouched true req profile sans actor e = search keeps_rules
  issue_unless-Untouched false req profile sans actor e = absurd cc

ruleset untouched_steps = (
  keeps_rules, db_rules, Keeps-both_locally, Keeps-audit_record, Keeps-add_request,
  issue_unless-Untouched,
)

module _ (p : Platform) (c : CaClient) (secret : String) (before : c.Remote) where
  submit_request-Untouched :
      (profile protocol requester csr_pem : String) (sans : List String)
      → Keeps
          (Untouched p c secret before)
          (submit_request p c secret profile protocol requester csr_pem sans)
  unfolding submit_request
  submit_request-Untouched name protocol requester csr_pem sans =
      Keeps-profile p c secret before name _ λ found asks.
        Keeps-after_or_raise found _ _ λ profile e.
          let asked : NeedsApproval profile = asks profile e in
          search (untouched_steps, asked) depth 30

  -- a role that the caller lacks is an error before anything else
  Keeps-forbidden :
      {A : Type 0} (claims : Claims) (f : Claims → Exec (Site p c) A)
      → is_approver claims ≡ false
      → Keeps (Untouched p c secret before) (lift (require_role approver_roles claims) >>= f)
  unfolding require_role
  Keeps-forbidden claims f lacks = Keeps-after_lift _ _ λ a e. absurd (ground (arith, lacks, e))

ruleset untouched_service =
    (keeps_rules, db_rules, Keeps-both_locally, submit_request-Untouched, Keeps-forbidden)

module _ (p : Platform) (c : CaClient) (secret : String) (before : c.Remote) where
  handle-Untouched :
      (r : Request) → LacksApprover r → Keeps (Untouched p c secret before) (handle p c secret r)
  unfolding handle
  handle-Untouched (submit claims profile csr_pem sans) l = search untouched_service depth 16
  handle-Untouched (list_requests claims) l = Keeps-forbidden p c secret before claims _ l
  handle-Untouched (approve claims id) l = Keeps-forbidden p c secret before claims _ l
  handle-Untouched (reject claims id reason) l = Keeps-forbidden p c secret before claims _ l
  handle-Untouched (revoke_certificate claims serial reason) l =
      Keeps-forbidden p c secret before claims _ l
  handle-Untouched _ l = search untouched_service depth 16

  committed :
      (s : Site p c) (r : Result Reply) (s' : Site p c)
      → Untouched p c secret before s
      → Untouched p c secret before s'
      → Untouched p c secret before (commit_or_rollback p c secret s (r, s')).1
  unfolding commit_or_rollback rolled_back
  committed s (ok reply) s' h k = k
  committed s (err e) s' h k = record { tables = record { holds = h.tables.holds }; ca = k.ca }

  serve_all-Untouched :
      (rs : List Request) (s : Site p c)
      → All LacksApprover rs
      → Untouched p c secret before s
      → Untouched p c secret before (serve_all p c secret rs s)
  unfolding serve_all serve
  serve_all-Untouched [] s l h = h
  serve_all-Untouched (r ∷ rs) s l h =
      let (reply, s') = handle p c secret r s in
      serve_all-Untouched rs (commit_or_rollback p c secret s (reply, s')).1 l.1
        (committed s reply s' h ((handle-Untouched r l.0).at s h))

-- When every profile asks for approval, no history of requests without one from an operator who has
-- an approver's role reaches the CA, whatever operators without one and protocol adapters ask for:
-- the CA is as it was before.
pub serve_all-NeedsApprover :
    (p : Platform) (c : CaClient) (secret : String) (rs : List Request) (s : Site p c)
    → All LacksApprover rs
    → AllNeedApproval s.local.db
    → (serve_all p c secret rs s).remote ≡ s.remote
serve_all-NeedsApprover p c secret rs s lacks asks =
    (serve_all-Untouched p c secret s.remote rs s lacks
      (record { tables = record { holds = asks }; ca = refl })).ca
