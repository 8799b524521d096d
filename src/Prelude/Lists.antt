-- ===== src/Prelude/Lists.antt =====
-- Lists measured by native numbers, Boolean filters, and lists of distinct pointers.
use Prim.Native.Nat.{ℕ, suc, ◌+◌, ◌≤◌}
use mathlib.Core.Path.{◌≡◌, refl}
use mathlib.Core.Bool.{Bool, true, false, ◌||◌, not}
use mathlib.Core.List.{List, [], ◌∷◌, ◌++◌}
use native.Mathlib.Omega.{arith}
use qsense.Prelude.Tests.{◌==◌, if◌then◌else◌, Bool-cases}
use mathlib.Core.Logic.{inl, inr}

module _ {ℓ} {A : Type ℓ} where
  abbrev pub length : List A → ℕ
  length [] = 0
  length (x ∷ xs) = suc (length xs)

  pub length-append : (xs ys : List A) → length (xs ++ ys) ≡ length xs + length ys
  length-append [] ys = omega arith
  length-append (x ∷ xs) ys = omega (arith, length-append xs ys)

  -- The elements that pass a test, in their order.
  abbrev pub keep : (A → Bool) → List A → List A
  keep p [] = []
  keep p (x ∷ xs) = if p x then x ∷ keep p xs else keep p xs

  pub keep-append : (p : A → Bool) (xs ys : List A) → keep p (xs ++ ys) ≡ keep p xs ++ keep p ys
  keep-append p [] ys = refl
  keep-append p (x ∷ xs) ys = ground (arith, keep-append p xs ys)

  pub length-keep :
      (p : A → Bool) (xs : List A)
      → length (keep p xs) + length (keep (λ x. not (p x)) xs) ≡ length xs
  length-keep p [] = omega arith
  length-keep p (x ∷ xs) = ground (arith, length-keep p xs)

  -- Last element first.
  abbrev pub backwards : List A → List A
  backwards [] = []
  backwards (x ∷ xs) = backwards xs ++ (x ∷ [])

  pub length-backwards : (xs : List A) → length (backwards xs) ≡ length xs
  length-backwards [] = refl
  length-backwards (x ∷ xs) =
      omega (arith, length-append (backwards xs) (x ∷ []), length-backwards xs)

module _ {ℓ} {A : Type ℓ} where
  pub backwards-snoc : (xs : List A) (x : A) → backwards (xs ++ x ∷ []) ≡ x ∷ backwards xs
  backwards-snoc [] x = refl
  backwards-snoc (y ∷ xs) x = rw (backwards-snoc xs x)

  pub backwards-backwards : (xs : List A) → backwards (backwards xs) ≡ xs
  backwards-backwards [] = refl
  backwards-backwards (x ∷ xs) = rw (backwards-snoc (backwards xs) x, backwards-backwards xs)

-- Every element satisfies a predicate.
abbrev pub Each {ℓ κ} : {A : Type ℓ} → (A → Type κ) → List A → Type κ
Each P [] = Unit
Each P (x ∷ xs) = P x × Each P xs

module _ {ℓ κ} {A : Type ℓ} where
  pub Each-map {μ} :
      {P : A → Type κ} {Q : A → Type μ} (xs : List A)
      → ((a : A) → P a → Q a)
      → Each P xs
      → Each Q xs
  Each-map [] f h = tt
  Each-map (x ∷ xs) f (p, h) = (f x p, Each-map xs f h)

  pub Each-append : (P : A → Type κ) (xs ys : List A) → Each P xs → Each P ys → Each P (xs ++ ys)
  Each-append P [] ys h k = k
  Each-append P (x ∷ xs) ys (p, h) k = (p, Each-append P xs ys h k)

  pub Each-backwards : (P : A → Type κ) (xs : List A) → Each P xs → Each P (backwards xs)
  Each-backwards P [] h = tt
  Each-backwards P (x ∷ xs) (p, h) =
      Each-append P (backwards xs) (x ∷ []) (Each-backwards P xs h) (p, tt)

  -- The elements that a filter keeps pass its test.
  pub Each-keep :
      (P : A → Type κ) (q : A → Bool) (xs : List A)
      → ((a : A) → q a ≡ true → P a)
      → Each P (keep q xs)
  Each-keep P q [] h = tt
  Each-keep P q (x ∷ xs) h = elim (Bool-cases (q x)) [
    | inl e ↦ rw e (h x e, Each-keep P q xs h)
    | inr e ↦ rw e (Each-keep P q xs h)
  ]

-- Membership of a pointer in a list, as the code tests it: by a linear search.
abbrev pub has : ℕ → List ℕ → Bool
has a [] = false
has a (x ∷ xs) = (x == a) || has a xs

abbrev pub IsDistinct : List ℕ → Type 0
IsDistinct [] = Unit
IsDistinct (x ∷ xs) = (has x xs ≡ false) × IsDistinct xs

pub has-append : (a : ℕ) (xs ys : List ℕ) → has a (xs ++ ys) ≡ (has a xs || has a ys)
has-append a [] ys = refl
has-append a (x ∷ xs) ys = ground (arith, has-append a xs ys)

-- How often a number is the image of an element.
abbrev pub occurrences {ℓ} : {A : Type ℓ} → (A → ℕ) → ℕ → List A → ℕ
occurrences f p [] = 0
occurrences f p (x ∷ xs) = if p == f x then suc (occurrences f p xs) else occurrences f p xs

-- The elements have different images.
abbrev pub IsDistinctBy {ℓ} : {A : Type ℓ} → (A → ℕ) → List A → Type 0
IsDistinctBy f [] = Unit
IsDistinctBy f (x ∷ xs) = (occurrences f (f x) xs ≡ 0) × IsDistinctBy f xs

module _ {ℓ} {A : Type ℓ} (f : A → ℕ) where
  occurrences-le : (p : ℕ) (xs : List A) → IsDistinctBy f xs → occurrences f p xs ≤ 1
  occurrences-le p [] d = omega arith
  occurrences-le p (x ∷ xs) (once, d) = elim (Bool-cases (p == f x)) [
    | inl here ↦
        let e : p ≡ f x = ground arith in
        let no_more : occurrences f p xs ≡ 0 = rw e once in rw here (omega (arith, no_more))
    | inr other ↦ rw other (occurrences-le p xs d)
  ]

  keep-cons-le :
      (p : ℕ) (ps : List ℕ) (xs : List A)
      → length (keep (λ x. has (f x) (p ∷ ps)) xs)
        ≤ length (keep (λ x. has (f x) ps) xs) + occurrences f p xs
  keep-cons-le p ps [] = omega arith
  keep-cons-le p ps (x ∷ xs) = ground (arith, keep-cons-le p ps xs)

  -- Elements with different images in a list are at most as many as the list is long.
  pub keep-has-le :
      (ps : List ℕ) (xs : List A)
      → IsDistinctBy f xs
      → length (keep (λ x. has (f x) ps) xs) ≤ length ps
  keep-has-le [] [] d = omega arith
  keep-has-le [] (x ∷ xs) d = keep-has-le [] xs d.1
  keep-has-le (p ∷ ps) xs d =
      omega (arith, keep-cons-le p ps xs, occurrences-le p xs d, keep-has-le ps xs d)

  pub occurrences-keep_le :
      (q : A → Bool) (p : ℕ) (xs : List A) → occurrences f p (keep q xs) ≤ occurrences f p xs
  occurrences-keep_le q p [] = omega arith
  occurrences-keep_le q p (x ∷ xs) = ground (arith, occurrences-keep_le q p xs)

  pub keep-IsDistinctBy :
      (q : A → Bool) (xs : List A) → IsDistinctBy f xs → IsDistinctBy f (keep q xs)
  keep-IsDistinctBy q [] d = tt
  keep-IsDistinctBy q (x ∷ xs) (once, d) = elim (Bool-cases (q x)) [
    | inl e ↦ rw e (omega (arith, once, occurrences-keep_le q (f x) xs), keep-IsDistinctBy q xs d)
    | inr e ↦ rw e (keep-IsDistinctBy q xs d)
  ]

  pub occurrences-append :
      (p : ℕ) (xs ys : List A)
      → occurrences f p (xs ++ ys) ≡ occurrences f p xs + occurrences f p ys
  occurrences-append p [] ys = omega arith
  occurrences-append p (x ∷ xs) ys = ground (arith, occurrences-append p xs ys)

  pub occurrences-backwards :
      (p : ℕ) (xs : List A) → occurrences f p (backwards xs) ≡ occurrences f p xs
  occurrences-backwards p [] = refl
  occurrences-backwards p (x ∷ xs) =
      ground (arith, occurrences-append p (backwards xs) (x ∷ []), occurrences-backwards p xs)

  -- A test parts a list in two.
  pub occurrences-keep :
      (q : A → Bool) (p : ℕ) (xs : List A)
      → occurrences f p (keep q xs) + occurrences f p (keep (λ x. not (q x)) xs)
        ≡ occurrences f p xs
  occurrences-keep q p [] = omega arith
  occurrences-keep q p (x ∷ xs) = ground (arith, occurrences-keep q p xs)
