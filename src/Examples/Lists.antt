-- ===== src/Examples/Lists.antt =====
-- src/double_llist.c at concrete lists.
use qsense.Prelude.{◌+◌, ◌≡◌, refl, List, [], ◌∷◌, arith}
use qsense.DoubleLlist.{Ptr, Memory, DoubleLlist, init, add_to_head, remove_from_tail, remove_node}
use qsense.DoubleLlist.Seg.{IsList}
use qsense.DoubleLlist.Link.{SameContents}
use qsense.DoubleLlist.RemoveNode.{remove_node-drop}

abbrev blank : Memory
blank = record {
  actual_node = λ a. a + 100;
  tv_sec = λ a. 0;
  tv_usec = λ a. 0;
  mr_prev = λ a. 0;
  mr_next = λ a. 0;
}

abbrev one : Memory × DoubleLlist
one = add_to_head blank init 8

abbrev two : Memory × DoubleLlist
two = add_to_head one.0 one.1 16

abbrev three : Memory × DoubleLlist
three = add_to_head two.0 two.1 24

abbrev xs : List Ptr
xs = 24 ∷ 16 ∷ 8 ∷ []

three-IsList : IsList three.0 three.1 xs
unfolding add_to_head init
three-IsList = record {
  chain = omega arith;
  last = refl;
  distinct = (refl, (refl, (refl, tt)));
  counted = refl;
}

head_and_tail : (three.1.head ≡ 24) × (three.1.tail ≡ 8) × (three.1.size ≡ 3)
unfolding add_to_head init
head_and_tail = (refl, refl, refl)

oldest_first : (remove_from_tail three.0 three.1).0 ≡ 8
unfolding remove_from_tail add_to_head init
oldest_first = refl

remove_node-drop_example :
    IsList (remove_node three.0 three.1 16).0 (remove_node three.0 three.1 16).1 (24 ∷ 8 ∷ [])
    × SameContents three.0 (remove_node three.0 three.1 16).0
remove_node-drop_example = remove_node-drop three.0 three.1 (24 ∷ []) 16 (8 ∷ []) three-IsList
