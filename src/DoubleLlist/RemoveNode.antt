-- ===== src/DoubleLlist/RemoveNode.antt =====
-- remove_node of src/double_llist.c against lists.
use qsense.Prelude.{
  ◌+◌, ◌-◌, ◌%◌, ◌^◌, ◌≡◌, sym, false, List, [], ◌∷◌, ◌++◌, arith, ◌==◌, length, length-append, ◌∙◌,
}
use qsense.DoubleLlist.{Ptr, null, Memory, DoubleLlist, unlink_left, unlink_right, remove_node}
use qsense.DoubleLlist.Seg.{Seg, last_or, IsList}
use qsense.DoubleLlist.Link.{
  SameContents, link_next, link_prev, start, link_next-chain, link_prev-chain, Seg-last_ne, Around,
  IsList-Around, link_next-stable, last_or-append_or, link-SameContents,
}

unlink_left-link :
    (m : Memory) (l : DoubleLlist) (xs : List Ptr) (x : Ptr) (ys : List Ptr)
    → Around m l xs x ys
    → unlink_left m l.head x ≡ (link_next m xs (m.mr_next x), start l.head xs (m.mr_next x))
unfolding unlink_left
unlink_left-link m l [] x ys a = rw a.before
unlink_left-link m l (z ∷ xs) x ys a =
    let held : (m.mr_prev x == null) ≡ false =
      ground (arith, a.before, Seg-last_ne m null l.head z xs x a.front) in
    rw held (rw a.before)

unlink_right-link :
    (m : Memory) (b x tail : Ptr) (ys : List Ptr)
    → m.mr_prev x ≡ b
    → Seg m x (m.mr_next x) ys null
    → tail ≡ last_or x ys
    → unlink_right m tail x ≡ (link_prev m b ys, last_or b ys)
unfolding unlink_right
unlink_right-link m b x tail [] e s t = let s' : m.mr_next x ≡ null = s in rw s' (rw e)
unlink_right-link m b x tail (y ∷ ys) e (here, ne, back, s) t =
    let more : (m.mr_next x == null) ≡ false = ground arith in rw more (rw (here, e, t))

module _ (m : Memory) (l : DoubleLlist) (xs : List Ptr) (x : Ptr) (ys : List Ptr)
    (a : Around m l xs x ys) where
  left : Memory
  left = link_next m xs (m.mr_next x)

  left-segs :
      Seg left null (start l.head xs (m.mr_next x)) xs (m.mr_next x)
      × Seg left x (m.mr_next x) ys null
  unfolding left
  left-segs = link_next-chain m l.head xs ys x (m.mr_next x) x a.front a.back a.apart

  -- What is left when the node is taken out.
  rest : Memory × DoubleLlist
  rest = (
    link_prev left (last_or null xs) ys,
    record {
      head = start l.head xs (m.mr_next x);
      tail = last_or (last_or null xs) ys;
      size = (l.size + 2 ^ 32 - 1) % 2 ^ 32;
    },
  )

  remove_node-rest : remove_node m l x ≡ rest
  unfolding remove_node rest left
  remove_node-rest =
      let (stays_next, stays_prev) = link_next-stable m xs x (m.mr_next x) a.not_in.0 in
      rw (unlink_left-link m l xs x ys a) (
        rw (
          unlink_right-link left (last_or null xs) x l.tail ys (stays_prev ∙ a.before)
            (rw stays_next left-segs.1) a.last))

  rest-IsList : l.size ≡ length (xs ++ x ∷ ys) % 2 ^ 32 → IsList rest.0 rest.1 (xs ++ ys)
  unfolding rest left
  rest-IsList c = record {
    chain =
        link_prev-chain left (start l.head xs (m.mr_next x)) xs ys (m.mr_next x) x left-segs.0
          left-segs.1 a.apart;
    last = sym (last_or-append_or null xs ys);
    distinct = a.apart;
    counted = omega (arith, c, length-append {0} xs ys, length-append {0} xs (x ∷ ys));
  }

  rest-SameContents : SameContents m rest.0
  unfolding rest left
  rest-SameContents = link-SameContents m xs ys (m.mr_next x) (last_or null xs)

-- remove_node takes a node out of the list, wherever it stands, and changes only links.
pub remove_node-drop :
    (m : Memory) (l : DoubleLlist) (xs : List Ptr) (x : Ptr) (ys : List Ptr)
    → IsList m l (xs ++ x ∷ ys)
    → IsList (remove_node m l x).0 (remove_node m l x).1 (xs ++ ys)
      × SameContents m (remove_node m l x).0
remove_node-drop m l xs x ys is =
    let a = IsList-Around m l xs x ys is in
    rw (remove_node-rest m l xs x ys a)
      (rest-IsList m l xs x ys a is.counted, rest-SameContents m l xs x ys a)
