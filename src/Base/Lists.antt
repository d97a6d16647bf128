-- ===== src/Base/Lists.antt =====
-- Look-ups and updates of rows in a list: how `find_first`, `any` and `update_where` meet `++`.
use pkica.Base.{
  Bool, true, false, ◌||◌, Option, none, some, List, [], ◌∷◌, ◌++◌, ◌≡◌, refl, arith, any,
  find_first, select, not, Bool-cases, inl, inr, update_where, All, if◌then◌else◌,
}

module _ {A : Type 0} where
  pub find_first-append :
      (q : A → Bool) (xs ys : List A) (a : A)
      → find_first q xs ≡ some a
      → find_first q (xs ++ ys) ≡ some a
  find_first-append q [] ys a h = cc
  find_first-append q (x ∷ xs) ys a h = ground (arith, find_first-append q xs ys a)

  pub any-append : (q : A → Bool) (xs ys : List A) → any q (xs ++ ys) ≡ (any q xs || any q ys)
  any-append q [] ys = refl
  any-append q (x ∷ xs) ys = ground (arith, any-append q xs ys)

  abbrev pub changed : (A → Bool) → (A → A) → A → A
  changed p f x = if p x then f x else x

  abbrev pub map_option : (A → A) → Option A → Option A
  map_option f none = none
  map_option f (some a) = some (f a)

  -- an update that leaves the tested column alone commutes with a look-up by that column
  pub find_first-update_where :
      (q p : A → Bool) (f : A → A) (xs : List A)
      → ((x : A) → q (f x) ≡ q x)
      → find_first q (update_where p f xs) ≡ map_option (changed p f) (find_first q xs)
  find_first-update_where q p f [] same = refl
  find_first-update_where q p f (x ∷ xs) same =
      ground (arith, same x, find_first-update_where q p f xs same)

  pub any-update_where :
      (q p : A → Bool) (f : A → A) (xs : List A)
      → ((x : A) → q (f x) ≡ q x)
      → any q (update_where p f xs) ≡ any q xs
  any-update_where q p f [] same = refl
  any-update_where q p f (x ∷ xs) same = ground (arith, same x, any-update_where q p f xs same)

  pub All-append :
      (P : A → Type 0) (front back : List A) → All P front → All P back → All P (front ++ back)
  All-append P [] back fs bs = bs
  All-append P (f ∷ front) back fs bs = (fs.0, All-append P front back fs.1 bs)

  pub All-implies : (P Q : A → Type 0) (xs : List A) → ((x : A) → P x → Q x) → All P xs → All Q xs
  All-implies P Q [] k h = tt
  All-implies P Q (x ∷ xs) k h = (k x h.0, All-implies P Q xs k h.1)

  pub All-changed :
      (P : A → Type 0) (b : Bool) (f : A → A) (x : A)
      → (P x → P (f x))
      → P x
      → P (if b then f x else x)
  All-changed P true f x k h = k h
  All-changed P false f x k h = h

  pub All-update_where :
      (P : A → Type 0) (p : A → Bool) (f : A → A) (xs : List A)
      → ((x : A) → P x → P (f x))
      → All P xs
      → All P (update_where p f xs)
  All-update_where P p f [] k h = tt
  All-update_where P p f (x ∷ xs) k h =
      (All-changed P (p x) f x (k x) h.0, All-update_where P p f xs k h.1)

  pub All-select : (P : A → Type 0) (p : A → Bool) (xs : List A) → All P xs → All P (select p xs)
  All-select P p [] h = tt
  All-select P p (x ∷ xs) h = elim (Bool-cases (p x)) [
    | inl kept ↦ rw kept (h.0, All-select P p xs h.1)
    | inr dropped ↦ rw dropped (All-select P p xs h.1)
  ]

  -- what no element passes, no selected element passes
  pub any-select : (q p : A → Bool) (xs : List A) → any q xs ≡ false → any q (select p xs) ≡ false
  any-select q p [] h = refl
  any-select q p (x ∷ xs) h = ground (arith, any-select q p xs)

  -- the elements that pass a test are gone when those that fail it are selected
  pub any-select-not : (q : A → Bool) (xs : List A) → any q (select (λ x. not (q x)) xs) ≡ false
  any-select-not q [] = refl
  any-select-not q (x ∷ xs) = ground (arith, any-select-not q xs)

  -- what a look-up finds passes its test
  pub find_first-passes :
      (q : A → Bool) (xs : List A) (a : A) → find_first q xs ≡ some a → q a ≡ true
  find_first-passes q [] a h = absurd cc
  find_first-passes q (x ∷ xs) a h = elim (Bool-cases (q x)) [
    | inl y ↦ let same : a ≡ x = ground (arith, y, h) in rw same y
    | inr n ↦ find_first-passes q xs a (ground (arith, n, h))
  ]
