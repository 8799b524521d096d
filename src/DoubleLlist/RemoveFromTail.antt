-- ===== src/DoubleLlist/RemoveFromTail.antt =====
-- remove_from_tail of src/double_llist.c against lists.
use qsense.Prelude.{
  ◌+◌, ◌-◌, ◌%◌, ◌^◌, ◌≡◌, refl, true, false, List, [], ◌∷◌, ◌++◌, arith, ◌==◌, length,
  length-append,
}
use qsense.DoubleLlist.{Ptr, null, Memory, DoubleLlist, set_prev, remove_from_tail}
use qsense.DoubleLlist.Seg.{last_or, IsList, Seg-frame, IsDistinct-append_left}
use qsense.DoubleLlist.Link.{
  SameContents, link_next, start, link_next-chain, Seg-last_ne, Around, IsList-Around,
  link-SameContents,
}

module _ (m : Memory) (l : DoubleLlist) (xs : List Ptr) (x : Ptr) (a : Around m l xs x [])
    (end : m.mr_next x ≡ null) where
  shortened : Memory × DoubleLlist
  shortened = (
    set_prev (link_next m xs null) x null,
    record {
      head = start l.head xs null;
      tail = last_or null xs;
      size = (l.size + 2 ^ 32 - 1) % 2 ^ 32;
    },
  )

  shortened-IsList : l.size ≡ length (xs ++ x ∷ []) % 2 ^ 32 → IsList shortened.0 shortened.1 xs
  unfolding shortened
  shortened-IsList c =
      let (s, t) = link_next-chain m l.head xs [] x null x a.front refl a.apart in
      record {
        chain =
            Seg-frame (link_next m xs null) (set_prev (link_next m xs null) x null) null
              (start l.head xs null) xs null s (λ b i. (ground (arith, a.not_in), refl));
        last = refl;
        distinct = IsDistinct-append_left xs [] a.apart;
        counted = omega (arith, c, length-append {0} xs (x ∷ []));
      }

remove_from_tail-shortened :
    (m : Memory) (l : DoubleLlist) (xs : List Ptr) (x : Ptr) (a : Around m l xs x [])
    (end : m.mr_next x ≡ null)
    → remove_from_tail m l ≡ (x, (shortened m l xs x a end).0, (shortened m l xs x a end).1)
unfolding remove_from_tail shortened
remove_from_tail-shortened m l [] x a end =
    let some_node : (l.tail == null) ≡ false = ground (arith, a.last, a.held) in
    rw some_node (rw (a.last, a.before))
remove_from_tail-shortened m l (y ∷ xs) x a end =
    let some_node : (l.tail == null) ≡ false = ground (arith, a.last, a.held) in
    let more : (last_or y xs == null) ≡ false =
      ground (arith, Seg-last_ne m null l.head y xs x a.front) in
    rw some_node (rw (a.last, a.before, more))

-- remove_from_tail returns the last node and leaves the nodes before it; it changes only links.
remove_from_tail-last :
    (m : Memory) (l : DoubleLlist) (xs : List Ptr) (x : Ptr)
    → IsList m l (xs ++ x ∷ [])
    → ((remove_from_tail m l).0 ≡ x)
      × IsList (remove_from_tail m l).1 (remove_from_tail m l).2 xs
      × SameContents m (remove_from_tail m l).1
unfolding shortened
remove_from_tail-last m l xs x is =
    let a = IsList-Around m l xs x [] is in
    let end : m.mr_next x ≡ null = a.back in
    let s = link-SameContents m xs [] null (last_or null xs) in
    rw (remove_from_tail-shortened m l xs x a end) (
      refl,
      shortened-IsList m l xs x a end is.counted,
      record { same_node = s.same_node; same_sec = s.same_sec; same_usec = s.same_usec },
    )

-- On an empty list it returns NULL and changes nothing.
pub remove_from_tail-nil :
    (m : Memory) (l : DoubleLlist) → IsList m l [] → remove_from_tail m l ≡ (null, m, l)
unfolding remove_from_tail
remove_from_tail-nil m l is =
    let none_left : (l.tail == null) ≡ true = ground (arith, is.last) in rw none_left
