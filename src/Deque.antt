-- ===== src/Deque.antt =====
-- The view of src/double_llist.c that its clients rely on: the nodes from head to tail.
-- DoubleLlist.AddToHead, DoubleLlist.RemoveFromTail and DoubleLlist.RemoveNode show that the linked
-- representation behaves like these operations on lists.
use qsense.Prelude.{List, [], ◌∷◌, ◌++◌, Option, none, some, ◌≡◌, refl}

module _ {ℓ} {A : Type ℓ} where
  -- add_to_head
  abbrev pub add_to_head : A → List A → List A
  add_to_head x xs = x ∷ xs

  -- remove_from_tail
  unfoldable pub remove_from_tail : List A → Option (A × List A)
  remove_from_tail [] = none
  remove_from_tail (x ∷ xs) = elim (remove_from_tail xs) [
    | none ↦ some (x, [])
    | some (last, rest) ↦ some (last, x ∷ rest)
  ]

  pub remove_from_tail-append :
      (xs : List A) (x : A) → remove_from_tail (xs ++ x ∷ []) ≡ some (x, xs)
  unfolding remove_from_tail
  remove_from_tail-append [] x = refl
  remove_from_tail-append (y ∷ xs) x = rw (remove_from_tail-append xs x)
