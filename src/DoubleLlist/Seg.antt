-- ===== src/DoubleLlist/Seg.antt =====
-- Segments of a doubly linked list in memory, and how single writes change them.
use qsense.Prelude.{
  ◌%◌, ◌^◌, ◌≡◌, ◌≢◌, refl, true, false, List, [], ◌∷◌, ◌++◌, arith, has, length, has-append,
  IsDistinct, Bool-cases, inl, inr, ◌∙◌,
}
use qsense.DoubleLlist.{Ptr, null, Memory, DoubleLlist, set_next, set_prev}

-- From `p`, whose predecessor is `before`, the links lead through `xs` to `stop`.
abbrev pub Seg : Memory → Ptr → Ptr → List Ptr → Ptr → Type 0
Seg m before p [] stop = p ≡ stop
Seg m before p (x ∷ xs) stop =
    (p ≡ x) × (x ≢ null) × (m.mr_prev x ≡ before) × Seg m x (m.mr_next x) xs stop

-- The last node, or `before` if there is none.
abbrev pub last_or : Ptr → List Ptr → Ptr
last_or before [] = before
last_or before (x ∷ xs) = last_or x xs

pub last_or-append : (b x : Ptr) (xs ys : List Ptr) → last_or b (xs ++ x ∷ ys) ≡ last_or x ys
last_or-append b x [] ys = refl
last_or-append b x (y ∷ xs) ys = last_or-append y x xs ys

-- The list at `l` holds the distinct nodes `xs`, from head to tail.
pub record IsList (m : Memory) (l : DoubleLlist) (xs : List Ptr) : Type 0 where
  pub chain : Seg m null l.head xs null
  pub last : l.tail ≡ last_or null xs
  pub distinct : IsDistinct xs
  pub counted : l.size ≡ length xs % 2 ^ 32

-- A segment survives any change of the links that spares those of its nodes.
pub Seg-frame :
    (m g : Memory) (before p : Ptr) (xs : List Ptr) (stop : Ptr)
    → Seg m before p xs stop
    → ((a : Ptr) → has a xs ≡ true → (g.mr_prev a ≡ m.mr_prev a) × (g.mr_next a ≡ m.mr_next a))
    → Seg g before p xs stop
Seg-frame m g before p [] stop s same = s
Seg-frame m g before p (x ∷ xs) stop (e, ne, back, s) same =
    let (same_prev, same_next) = same x (ground arith) in
    (
      e,
      ne,
      same_prev ∙ back,
      rw same_next (Seg-frame m g x (m.mr_next x) xs stop s (λ a i. same a (ground arith))),
    )

pub Seg-split :
    (m : Memory) (before p : Ptr) (xs ys : List Ptr) (stop : Ptr)
    → Seg m before p (xs ++ ys) stop
    → (q : Ptr) × Seg m before p xs q × Seg m (last_or before xs) q ys stop
Seg-split m before p [] ys stop s = (p, refl, s)
Seg-split m before p (x ∷ xs) ys stop (e, ne, back, s) =
    let (q, l, r) = Seg-split m x (m.mr_next x) xs ys stop s in (q, (e, ne, back, l), r)

pub Seg-append :
    (m : Memory) (before p : Ptr) (xs ys : List Ptr) (q stop : Ptr)
    → Seg m before p xs q
    → Seg m (last_or before xs) q ys stop
    → Seg m before p (xs ++ ys) stop
Seg-append m before p [] ys q stop e r = let e' : p ≡ q = e in rw e' r
Seg-append m before p (x ∷ xs) ys q stop (e, ne, back, s) r =
    (e, ne, back, Seg-append m x (m.mr_next x) xs ys q stop s r)

pub Seg-ne_null :
    (m : Memory) (before p : Ptr) (x : Ptr) (xs : List Ptr) (stop : Ptr)
    → Seg m before p (x ∷ xs) stop
    → p ≢ null
Seg-ne_null m before p x xs stop (e, ne, back, s) = rw e ne

pub has-last_or : (x : Ptr) (xs : List Ptr) → has (last_or x xs) (x ∷ xs) ≡ true
has-last_or x [] = ground arith
has-last_or x (y ∷ xs) = ground (arith, has-last_or y xs)

-- Redirecting the last node's `mr_next`.
pub Seg-set_next :
    (m : Memory) (before p x : Ptr) (xs : List Ptr) (q q' : Ptr)
    → Seg m before p (x ∷ xs) q
    → IsDistinct (x ∷ xs)
    → Seg (set_next m (last_or x xs) q') before p (x ∷ xs) q'
Seg-set_next m before p x [] q q' (e, ne, back, s) d = (e, ne, ground arith, ground arith)
Seg-set_next m before p x (y ∷ xs) q q' (e, ne, back, s) (out, d) =
    let far : last_or y xs ≢ x = ground (arith, has-last_or y xs) in
    let same_next : (set_next m (last_or y xs) q').mr_next x ≡ m.mr_next x = ground arith in
    (e, ne, ground arith, rw same_next (Seg-set_next m x (m.mr_next x) y xs q q' s d))

-- Redirecting the first node's `mr_prev`.
pub Seg-set_prev :
    (m : Memory) (before before' p x : Ptr) (xs : List Ptr) (stop : Ptr)
    → Seg m before p (x ∷ xs) stop
    → IsDistinct (x ∷ xs)
    → Seg (set_prev m x before') before' p (x ∷ xs) stop
Seg-set_prev m before before' p x xs stop (e, ne, back, s) (out, d) = (
  e,
  ne,
  ground arith,
  let same_next : (set_prev m x before').mr_next x ≡ m.mr_next x = ground arith in
      rw same_next (
        Seg-frame m (set_prev m x before') x (m.mr_next x) xs stop s (λ a i. (ground arith, refl))),
)

pub IsDistinct-append_left : (xs ys : List Ptr) → IsDistinct (xs ++ ys) → IsDistinct xs
IsDistinct-append_left [] ys d = tt
IsDistinct-append_left (x ∷ xs) ys (out, d) =
    (ground (arith, has-append x xs ys), IsDistinct-append_left xs ys d)

pub IsDistinct-append_right : (xs ys : List Ptr) → IsDistinct (xs ++ ys) → IsDistinct ys
IsDistinct-append_right [] ys d = d
IsDistinct-append_right (x ∷ xs) ys (out, d) = IsDistinct-append_right xs ys d

pub IsDistinct-append_apart :
    (xs ys : List Ptr) → IsDistinct (xs ++ ys) → (a : Ptr) → has a xs ≡ true → has a ys ≡ false
IsDistinct-append_apart [] ys d a i = cc
IsDistinct-append_apart (x ∷ xs) ys (out, d) a i = elim (Bool-cases (has a xs)) [
  | inl h ↦ IsDistinct-append_apart xs ys d a h
  | inr h ↦ ground (arith, has-append x xs ys)
]
