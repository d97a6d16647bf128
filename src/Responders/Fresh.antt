-- ===== src/Responders/Fresh.antt =====
-- How old an answer of a responder may be: cached contents, and the answers that the CA
-- gave to the requests of a history.
use pkica.Base.{
  ℕ, ◌+◌, ◌∙◌, String, ◌≡◌, refl, true, Option, none, some, List, [], ◌∷◌, ◌++◌, ◌==◌, arith, ◌⊎◌,
  inl, inr, Bool-cases, eq_iff, ap,
}
use pkica.Base.Int.{ℤ, ◌-ℤ◌, ltb_ℤ}
use pkica.Effect.{Result, ok, err, Exec, pure, ◌>>=◌}
use pkica.Asn1.{Bytes}
use pkica.Responders.Cache.{
  Entries, get, set, fresh, Process, time, read_cache, write_cache, ask, or_ask, respond, after,
}

get-set :
    (j k : String) (v w : ℤ × Bytes) (es : Entries)
    → get j (set k v es) ≡ some w
    → ((k ≡ j) × (v ≡ w)) ⊎ (get j es ≡ some w)
unfolding get set
get-set j k v w [] h = elim (Bool-cases (k == j)) [
  | inl same ↦ inl (ground (arith, same, eq_iff k j), ground (arith, same, h))
  | inr other ↦ inr (ground (arith, other, h))
]
get-set j k v w ((k', v') ∷ es) h = elim (Bool-cases (k' == k)) [
  | inl same ↦ elim (Bool-cases (k == j)) [
    | inl hit ↦ inl (ground (arith, hit, eq_iff k j), ground (arith, same, hit, h))
    | inr miss ↦ inr (ground (arith, same, miss, eq_iff k' k, eq_iff k j, eq_iff k' j, h))
  ]
  | inr other ↦ elim (Bool-cases (k' == j)) [
    | inl hit ↦ inr (ground (arith, other, hit, h))
    | inr miss ↦ elim (get-set j k v w es (ground (arith, other, miss, h))) [
      | inl at_key ↦ inl at_key
      | inr behind ↦ inr (ground (arith, miss, behind))
    ]
  ]
]

returned : {a b : Bytes} → ok a ≡ ok b → a ≡ b
returned h = cc

module _ {R Request Query : Type 0} (time_at : ℕ → ℤ) (ttl : ℤ) (parse : Request → Result Query)
    (key : Query → String) (fetch : Query → Exec R Bytes) (start : Process R) where
  abbrev process : List Request → Process R
  process rs = after time_at ttl parse key fetch rs start

  -- The CA gave the content, when the process that had answered the earlier requests of the history
  -- asked it at that time for a query of that key.
  pub record Answered (rs : List Request) (k : String) (at : ℤ) (content : Bytes) : Type 0 where
    pub later : List Request
    pub earlier : List Request
    pub history : rs ≡ later ++ earlier
    pub query : Query
    pub same_key : key query ≡ k
    pub asked_at : time_at (process earlier).calls ≡ at
    pub answered : (fetch query (process earlier).remote).0 ≡ ok content

  later_Answered :
      (r : Request) (rs : List Request) (k : String) (at : ℤ) (content : Bytes)
      → Answered rs k at content
      → Answered (r ∷ rs) k at content
  later_Answered r rs k at content h = record {
    later = r ∷ h.later;
    earlier = h.earlier;
    history = ap (λ x. r ∷ x) h.history;
    query = h.query;
    same_key = h.same_key;
    asked_at = h.asked_at;
    answered = h.answered;
  }

  abbrev AllAnswered : List Request → Entries → Type 0
  AllAnswered rs es = (k : String) (v : ℤ × Bytes) → get k es ≡ some v → Answered rs k v.0 v.1

  -- What the answer to a request is, and what is cached behind it.
  record Replied (rs : List Request) (r : Request) (reply : Result Bytes × Process R) : Type 0 where
    cached : AllAnswered (r ∷ rs) reply.1.cache
    vouched :
        (content : Bytes)
        → reply.0 ≡ ok content
        → (query : Query) × (at : ℤ) × (parse r ≡ ok query)
          × Answered (r ∷ rs) (key query) at content
          × ((at ≡ time_at (process rs).calls)
              ⊎ (ltb_ℤ (time_at (process rs).calls -ℤ at) ttl ≡ true))

  asked_now :
      (rs : List Request) (r : Request) (q : Query) (k : String) (at : ℤ) (content : Bytes)
      → key q ≡ k
      → time_at (process rs).calls ≡ at
      → (fetch q (process rs).remote).0 ≡ ok content
      → Answered (r ∷ rs) k at content
  asked_now rs r q k at content same asked given = record {
    later = r ∷ [];
    earlier = rs;
    history = refl;
    query = q;
    same_key = same;
    asked_at = asked;
    answered = given;
  }

  -- the CA is asked
  asked :
      (rs : List Request) (r : Request) (q : Query)
      → parse r ≡ ok q
      → AllAnswered rs (process rs).cache
      → (answer : Result Bytes) (remote : R) → fetch q (process rs).remote ≡ (answer, remote)
      → Replied rs r (
          or_ask
            (key q)
            (time_at (process rs).calls)
            (fetch q)
            none
            (record (process rs) { calls = (process rs).calls + 1 }))
  unfolding or_ask ◌>>=◌ ask set write_cache
  asked rs r q parsed h (err x) remote e = rw e (record {
    cached = λ k v found. later_Answered r rs k v.0 v.1 (h k v found);
    vouched = λ content same. absurd cc;
  })
  asked rs r q parsed h (ok answer) remote e =
      let now = time_at (process rs).calls in
      rw e (record {
        cached = λ k v found. elim (get-set k (key q) (now, answer) v (process rs).cache found) [
          | inl (same, stored) ↦
              asked_now rs r q k v.0 v.1 same (ap (λ x. x.0) stored)
                (ap (λ x. x.0) e ∙ ap (λ x. ok x.1) stored)
          | inr before ↦ later_Answered r rs k v.0 v.1 (h k v before)
        ];
        vouched = λ content same. (
          q,
          now,
          parsed,
          asked_now rs r q (key q) now content refl refl (ap (λ x. x.0) e ∙ same),
          inl refl,
        );
      })

  -- a fresh content is in the cache, and the CA had given it
  found_fresh :
      (now : ℤ) (entry : Option (ℤ × Bytes)) (content : Bytes)
      → fresh ttl now entry ≡ some content
      → (at : ℤ) × (entry ≡ some (at, content)) × (ltb_ℤ (now -ℤ at) ttl ≡ true)
  unfolding fresh
  found_fresh now none content h = absurd cc
  found_fresh now (some (at, stored)) content h = elim (Bool-cases (ltb_ℤ (now -ℤ at) ttl)) [
    | inl young ↦ (at, ground (arith, young, h), young)
    | inr old ↦ absurd (ground (arith, old, h))
  ]

  served :
      (rs : List Request) (r : Request) (q : Query) (o : Option Bytes)
      → parse r ≡ ok q
      → AllAnswered rs (process rs).cache
      → fresh ttl (time_at (process rs).calls) (get (key q) (process rs).cache) ≡ o
      → Replied rs r (
          or_ask
            (key q)
            (time_at (process rs).calls)
            (fetch q)
            o
            (record (process rs) { calls = (process rs).calls + 1 }))
  unfolding or_ask pure
  served rs r q none parsed h e =
      let (answer, remote) = fetch q (process rs).remote in asked rs r q parsed h answer remote refl
  served rs r q (some stored) parsed h e =
      let entry = get (key q) (process rs).cache in
      let (at, found, young) = found_fresh (time_at (process rs).calls) entry stored e in
      record {
        cached = λ k v found. later_Answered r rs k v.0 v.1 (h k v found);
        vouched = λ content same. (
          q,
          at,
          parsed,
          later_Answered r rs (key q) at content
              (h (key q) (at, content) (found ∙ ap (λ c. some (at, c)) (returned same))),
          inr young,
        );
      }

  reply :
      (rs : List Request) (r : Request) (parsed : Result Query)
      → parse r ≡ parsed
      → AllAnswered rs (process rs).cache
      → Replied rs r (respond time_at ttl parse key fetch r (process rs))
  unfolding respond ◌>>=◌ read_cache time
  reply rs r (err x) e h = rw e (record {
    cached = λ k v found. later_Answered r rs k v.0 v.1 (h k v found);
    vouched = λ content same. absurd cc;
  })
  reply rs r (ok q) e h = rw e (
      served rs r q (fresh ttl (time_at (process rs).calls) (get (key q) (process rs).cache)) e h
        refl)

  all_answered : start.cache ≡ [] → (rs : List Request) → AllAnswered rs (process rs).cache
  unfolding after
  all_answered empty [] = λ k v found. absurd (unfold get in ground (arith, rw empty at found))
  all_answered empty (r ∷ rs) = (reply rs r (parse r) refl (all_answered empty rs)).cached

  -- Whatever a responder answers after any history of requests, from an empty cache, the CA gave to a
  -- request of that history with the same key, and it was asked then or less than the time to live
  -- before.
  pub respond-Answered :
      start.cache ≡ []
      → (rs : List Request) (r : Request) (content : Bytes)
      → (respond time_at ttl parse key fetch r (process rs)).0 ≡ ok content
      → (query : Query) × (at : ℤ) × (parse r ≡ ok query)
        × Answered (r ∷ rs) (key query) at content
        × ((at ≡ time_at (process rs).calls)
            ⊎ (ltb_ℤ (time_at (process rs).calls -ℤ at) ttl ≡ true))
  respond-Answered empty rs r content given =
      (reply rs r (parse r) refl (all_answered empty rs)).vouched content given
