-- ===== src/Ca/Listed.antt =====
-- services/ca/app/service.py: the entries of a CRL. Serial numbers are stored as hexadecimal text and
-- read back for the list.
use pkica.Base.{
  ℕ, String, ◌≡◌, ◌∙◌, refl, sym, ap, Bool, true, ◌&&◌, Option, List, [], ◌∷◌, ◌++◌, eqb, eqb_refl,
  select, arith, Bool-cases, inl, inr,
}
use pkica.Base.Int.{ℤ, pos}
use pkica.Text.Hex.{format_hex}
use pkica.Text.Hex.RoundTrip.{int_hex-format_hex}
use pkica.Effect.{Result, ok, err}
use pkica.Models.{Db, Certificate}
use pkica.Crypto.{reason_or_unspecified}
use pkica.Ca.Status.{serial_value, crl_items, revoked_by}

abbrev pub Entry : Type 0
Entry = ℤ × Option ℤ × String

abbrev entry : ℤ → Certificate → Entry
entry serial c = (serial, c.revoked_at, reason_or_unspecified c.revocation_reason)

-- the entries have been read, the first of them from the first certificate
record FirstItem (c : Certificate) (cs : List Certificate) (items : List Entry) : Type 0 where
  serial : ℤ
  rest : List Entry
  read : serial_value c.serial_number ≡ ok serial
  read_rest : crl_items cs ≡ ok rest
  all_items : entry serial c ∷ rest ≡ items

item_cons :
    (c : Certificate) (cs : List Certificate) (items : List Entry) (first : Result ℤ)
    (others : Result (List Entry))
    → serial_value c.serial_number ≡ first
    → crl_items cs ≡ others
    → crl_items (c ∷ cs) ≡ ok items
    → FirstItem c cs items
unfolding crl_items
item_cons c cs items (err e) others f o h = absurd (ground (arith, f, h))
item_cons c cs items (ok serial) (err e) f o h = absurd (ground (arith, f, o, h))
item_cons c cs items (ok serial) (ok rest) f o h = record {
  serial = serial;
  rest = rest;
  read = f;
  read_rest = o;
  all_items = ground (arith, f, o, h);
}

first_item :
    (c : Certificate) (cs : List Certificate) (items : List Entry)
    → crl_items (c ∷ cs) ≡ ok items
    → FirstItem c cs items
first_item c cs items h =
    item_cons c cs items (serial_value c.serial_number) (crl_items cs) refl refl h

serial_value-format_hex : (n : ℕ) → serial_value (format_hex n) ≡ ok (pos n)
unfolding serial_value
serial_value-format_hex n = ground (arith, int_hex-format_hex n)

-- The entry stands among the items.
pub record Stands (item : Entry) (items : List Entry) : Type 0 where
  pub front : List Entry
  pub back : List Entry
  pub placed : items ≡ front ++ item ∷ back

place_later :
    (item x : Entry) (rest items : List Entry)
    → x ∷ rest ≡ items
    → Stands item rest
    → Stands item items
place_later item x rest items e h = record {
  front = x ∷ h.front;
  back = h.back;
  placed = sym e ∙ ap (λ l. x ∷ l) h.placed;
}

place_first :
    (c : Certificate) (cs : List Certificate) (n : ℕ) (items : List Entry)
    → c.serial_number ≡ format_hex n
    → FirstItem c cs items
    → Stands (entry (pos n) c) items
place_first c cs n items serial k =
    let number : k.serial ≡ pos n = cc (k.read, serial_value-format_hex n, serial) in
    record {
      front = [];
      back = k.rest;
      placed = sym k.all_items ∙ ap (λ z. entry z c ∷ k.rest) number;
    }

place_of :
    (q : Certificate → Bool) (xs ys : List Certificate) (c : Certificate) (n : ℕ)
    (items : List Entry)
    → q c ≡ true
    → c.serial_number ≡ format_hex n
    → crl_items (select q (xs ++ c ∷ ys)) ≡ ok items
    → Stands (entry (pos n) c) items
place_of q [] ys c n items hit serial h =
    place_first c (select q ys) n items serial
      (first_item c (select q ys) items (ground (arith, hit, h)))
place_of q (x ∷ xs) ys c n items hit serial h = elim (Bool-cases (q x)) [
  | inl listed ↦
      let k = first_item x (select q (xs ++ c ∷ ys)) items (ground (arith, listed, h)) in
      place_later (entry (pos n) c) (entry k.serial x) k.rest items k.all_items
        (place_of q xs ys c n k.rest hit serial k.read_rest)
  | inr skipped ↦ place_of q xs ys c n items hit serial (ground (arith, skipped, h))
]

-- When the entries of a CA's list can be read, a revoked certificate of that CA, whose serial number
-- was stored as the text of n, has its entry among them, with the number n, its time and its reason.
pub crl_items-Stands :
    (db : Db) (xs ys : List Certificate) (c : Certificate) (n : ℕ) (items : List Entry)
    → db.certificates ≡ xs ++ c ∷ ys
    → c.revoked ≡ true
    → c.serial_number ≡ format_hex n
    → crl_items (revoked_by c.issuing_ca_id db) ≡ ok items
    → Stands (pos n, c.revoked_at, reason_or_unspecified c.revocation_reason) items
unfolding revoked_by
crl_items-Stands db xs ys c n items table revoked serial h =
    place_of (λ d. eqb d.issuing_ca_id c.issuing_ca_id && d.revoked) xs ys c n items
      (ground (arith, revoked, eqb_refl c.issuing_ca_id)) serial (rw table at h)
