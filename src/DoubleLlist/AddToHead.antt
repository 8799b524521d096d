-- ===== src/DoubleLlist/AddToHead.antt =====
-- add_to_head of src/double_llist.c against lists.
use qsense.Prelude.{
  suc, ◌%◌, ◌^◌, ◌≡◌, ◌≢◌, refl, false, List, [], ◌∷◌, arith, ◌==◌, has, length, IsDistinct,
  Bool-cases, inl, inr,
}
use qsense.DoubleLlist.{Ptr, null, Memory, DoubleLlist, add_to_head}
use qsense.DoubleLlist.Seg.{Seg, last_or, IsList, Seg-frame}
use qsense.DoubleLlist.Link.{SameContents}

module _ (m : Memory) (l : DoubleLlist) where
  add_to_head-chain :
      (node : Ptr) (xs : List Ptr)
      → Seg m null l.head xs null
      → IsDistinct xs
      → node ≢ null
      → has node xs ≡ false
      → Seg (add_to_head m l node).0 null (add_to_head m l node).1.head (node ∷ xs) null
  unfolding add_to_head
  add_to_head-chain node [] e d ne out = rw e (refl, ne, ground arith, ground arith)
  add_to_head-chain node (x ∷ xs) (e, ne', back, s) d ne out =
      let same : (add_to_head m l node).0.mr_next x ≡ m.mr_next x = ground arith in
      (
        ground arith,
        ne,
        ground arith,
        (
          ground arith,
          ne',
          ground arith,
          rw same (
              Seg-frame m (add_to_head m l node).0 x (m.mr_next x) xs null s
                (λ a i. (ground arith, ground arith))),
        ),
      )

  add_to_head-last :
      (node : Ptr) (xs : List Ptr)
      → Seg m null l.head xs null
      → l.tail ≡ last_or null xs
      → (add_to_head m l node).1.tail ≡ last_or node xs
  unfolding add_to_head
  add_to_head-last node [] e t = rw e
  add_to_head-last node (x ∷ xs) (e, ne, _, _) t = ground arith

  add_to_head-counted :
      (node : Ptr) (xs : List Ptr)
      → l.size ≡ length xs % 2 ^ 32
      → (add_to_head m l node).1.size ≡ suc (length xs) % 2 ^ 32
  unfolding add_to_head
  add_to_head-counted node xs c = ground arith

  add_to_head-SameContents : (node : Ptr) → SameContents m (add_to_head m l node).0
  unfolding add_to_head
  add_to_head-SameContents node = elim (Bool-cases (l.head == null)) [
    | inl e ↦ rw e (record { same_node = refl; same_sec = refl; same_usec = refl })
    | inr e ↦ rw e (record { same_node = refl; same_sec = refl; same_usec = refl })
  ]

  -- add_to_head puts a node that is not in the list in front of the others, and changes only links.
  add_to_head-cons :
      (node : Ptr) (xs : List Ptr)
      → IsList m l xs
      → node ≢ null
      → has node xs ≡ false
      → IsList (add_to_head m l node).0 (add_to_head m l node).1 (node ∷ xs)
        × SameContents m (add_to_head m l node).0
  add_to_head-cons node xs is ne out = (
    record {
      chain = add_to_head-chain node xs is.chain is.distinct ne out;
      last = add_to_head-last node xs is.chain is.last;
      distinct = (out, is.distinct);
      counted = add_to_head-counted node xs is.counted;
    },
    add_to_head-SameContents node,
  )
