-- ===== src/DoubleLlist/Link.antt =====
-- Lists with a node taken out: how the links round the gap are closed.
use qsense.Prelude.{
  ◌≡◌, ◌≢◌, refl, false, List, [], ◌∷◌, ◌++◌, arith, has, has-append, IsDistinct, ◌∙◌,
}
use qsense.DoubleLlist.{Ptr, null, Memory, DoubleLlist, set_next, set_prev}
use qsense.DoubleLlist.Seg.{
  Seg, last_or, last_or-append, IsList, Seg-frame, Seg-split, Seg-append, Seg-set_next,
  Seg-set_prev, has-last_or, IsDistinct-append_left, IsDistinct-append_right,
  IsDistinct-append_apart,
}

-- The nodes keep their contents: at most the links differ.
pub record SameContents (m g : Memory) : Type 0 where
  pub same_node : g.actual_node ≡ m.actual_node
  pub same_sec : g.tv_sec ≡ m.tv_sec
  pub same_usec : g.tv_usec ≡ m.tv_usec

-- Closing the gap that leaves when what stood between `xs` and `ys` is taken out.
abbrev pub link_next : Memory → List Ptr → Ptr → Memory
link_next m [] q = m
link_next m (x ∷ xs) q = set_next m (last_or x xs) q

abbrev pub link_prev : Memory → Ptr → List Ptr → Memory
link_prev m b [] = m
link_prev m b (y ∷ ys) = set_prev m y b

abbrev pub start : Ptr → List Ptr → Ptr → Ptr
start p [] q = q
start p (x ∷ xs) q = p

pub link_next-chain :
    (m : Memory) (p : Ptr) (xs ys : List Ptr) (q q' c : Ptr)
    → Seg m null p xs q
    → Seg m c q' ys null
    → IsDistinct (xs ++ ys)
    → Seg (link_next m xs q') null (start p xs q') xs q' × Seg (link_next m xs q') c q' ys null
link_next-chain m p [] ys q q' c s t d = (refl, t)
link_next-chain m p (x ∷ xs) ys q q' c s t d = (
  Seg-set_next m null p x xs q q' s (IsDistinct-append_left (x ∷ xs) ys d),
  Seg-frame m (set_next m (last_or x xs) q') c q' ys null t (λ a i. (
    refl,
    ground (arith, has-last_or x xs, IsDistinct-append_apart (x ∷ xs) ys d (last_or x xs)),
  )),
)

pub link_prev-chain :
    (m : Memory) (p : Ptr) (xs ys : List Ptr) (q c : Ptr)
    → Seg m null p xs q
    → Seg m c q ys null
    → IsDistinct (xs ++ ys)
    → Seg (link_prev m (last_or null xs) ys) null p (xs ++ ys) null
link_prev-chain m p xs [] q c s t d = Seg-append m null p xs [] q null s t
link_prev-chain m p xs (y ∷ ys) q c s t d =
    Seg-append (set_prev m y (last_or null xs)) null p xs (y ∷ ys) q null
      (Seg-frame m (set_prev m y (last_or null xs)) null p xs q s
        (λ a i. (ground (arith, IsDistinct-append_apart xs (y ∷ ys) d a), refl)))
      (Seg-set_prev m c (last_or null xs) q y ys null t (IsDistinct-append_right xs (y ∷ ys) d))

link-chain :
    (m : Memory) (p : Ptr) (xs ys : List Ptr) (q q' c : Ptr)
    → Seg m null p xs q
    → Seg m c q' ys null
    → IsDistinct (xs ++ ys)
    → Seg (link_prev (link_next m xs q') (last_or null xs) ys) null (start p xs q') (xs ++ ys) null
link-chain m p xs ys q q' c s t d =
    let (s', t') = link_next-chain m p xs ys q q' c s t d in
    link_prev-chain (link_next m xs q') (start p xs q') xs ys q' c s' t' d

pub Seg-last_ne :
    (m : Memory) (b p x : Ptr) (xs : List Ptr) (q : Ptr)
    → Seg m b p (x ∷ xs) q
    → last_or x xs ≢ null
Seg-last_ne m b p x [] q (e, ne, back, s) = ne
Seg-last_ne m b p x (y ∷ xs) q (e, ne, back, s) = Seg-last_ne m x (m.mr_next x) y xs q s

-- The links around a node that is to go, on either side of it.
pub record Around (m : Memory) (l : DoubleLlist) (xs : List Ptr) (x : Ptr) (ys : List Ptr)
    : Type 0 where
  pub front : Seg m null l.head xs x
  pub back : Seg m x (m.mr_next x) ys null
  pub before : m.mr_prev x ≡ last_or null xs
  pub not_in : (has x xs ≡ false) × (has x ys ≡ false)
  pub apart : IsDistinct (xs ++ ys)
  pub last : l.tail ≡ last_or x ys
  pub held : x ≢ null

IsDistinct-drop :
    (xs : List Ptr) (x : Ptr) (ys : List Ptr)
    → IsDistinct (xs ++ x ∷ ys)
    → IsDistinct (xs ++ ys) × (has x xs ≡ false) × (has x ys ≡ false)
IsDistinct-drop [] x ys (out, d) = (d, refl, out)
IsDistinct-drop (z ∷ xs) x ys (out, d) =
    let (d', l, r) = IsDistinct-drop xs x ys d in
    (
      (ground (arith, has-append z xs (x ∷ ys), has-append z xs ys), d'),
      ground (arith, has-append z xs (x ∷ ys)),
      r,
    )

pub IsList-Around :
    (m : Memory) (l : DoubleLlist) (xs : List Ptr) (x : Ptr) (ys : List Ptr)
    → IsList m l (xs ++ x ∷ ys)
    → Around m l xs x ys
IsList-Around m l xs x ys is =
    let (q, s, (e, ne, back, t)) = Seg-split m null l.head xs (x ∷ ys) null is.chain in
    let (d, left, right) = IsDistinct-drop xs x ys is.distinct in
    record {
      front = rw (← e) s;
      back = t;
      before = back;
      not_in = (left, right);
      apart = d;
      last = is.last ∙ last_or-append null x xs ys;
      held = ne;
    }

pub link_next-stable :
    (m : Memory) (xs : List Ptr) (x q : Ptr)
    → has x xs ≡ false
    → ((link_next m xs q).mr_next x ≡ m.mr_next x) × ((link_next m xs q).mr_prev x ≡ m.mr_prev x)
link_next-stable m [] x q out = (refl, refl)
link_next-stable m (z ∷ xs) x q out = (ground (arith, has-last_or z xs), refl)

pub last_or-append_or :
    (b : Ptr) (xs ys : List Ptr) → last_or b (xs ++ ys) ≡ last_or (last_or b xs) ys
last_or-append_or b [] ys = refl
last_or-append_or b (x ∷ xs) ys = last_or-append_or x xs ys

pub link-SameContents :
    (m : Memory) (xs ys : List Ptr) (q b : Ptr) → SameContents m (link_prev (link_next m xs q) b ys)
link-SameContents m [] [] q b = record { same_node = refl; same_sec = refl; same_usec = refl }
link-SameContents m [] (y ∷ ys) q b = record { same_node = refl; same_sec = refl; same_usec = refl }
link-SameContents m (x ∷ xs) [] q b = record { same_node = refl; same_sec = refl; same_usec = refl }
link-SameContents m (x ∷ xs) (y ∷ ys) q b = record {
  same_node = refl;
  same_sec = refl;
  same_usec = refl;
}
