-- ===== src/DoubleLlist.antt =====
-- src/double_llist.c and include/double_llist.h: a doubly linked list of `mr_node`s over memory.
pub mod Seg
pub mod Link
pub mod AddToHead
pub mod RemoveNode
pub mod RemoveFromTail
use qsense.Prelude.{ℕ, ◌+◌, ◌-◌, ◌%◌, ◌^◌, ◌==◌, if◌then◌else◌, put}

abbrev pub Ptr : Type 0
Ptr = ℕ

abbrev pub null : Ptr
null = 0

-- Memory that holds a `struct mr_node` at each address, field by field; `tv_sec` and `tv_usec` are
-- its time stamp `created`.
pub record Memory : Type 0 where
  pub actual_node : Ptr → Ptr
  pub tv_sec : Ptr → ℕ
  pub tv_usec : Ptr → ℕ
  pub mr_prev : Ptr → Ptr
  pub mr_next : Ptr → Ptr

-- `struct double_llist`; `size` is a `uint32_t`.
pub record DoubleLlist : Type 0 where
  pub head : Ptr
  pub tail : Ptr
  pub size : ℕ

abbrev pub set_next : Memory → Ptr → Ptr → Memory
set_next m p q = record m { mr_next = put m.mr_next p q }

abbrev pub set_prev : Memory → Ptr → Ptr → Memory
set_prev m p q = record m { mr_prev = put m.mr_prev p q }

unfoldable pub init : DoubleLlist
init = record { head = null; tail = null; size = 0 }

unfoldable pub add_to_head : Memory → DoubleLlist → Ptr → Memory × DoubleLlist
add_to_head m list node =
    let m1 = set_prev (set_next m node list.head) node null in
    if list.head == null
    then (m1, record { head = node; tail = node; size = (list.size + 1) % 2 ^ 32 })
    else (
      set_prev m1 list.head node,
      record { head = node; tail = list.tail; size = (list.size + 1) % 2 ^ 32 },
    )

-- The removed node, `NULL` for an empty list, with the new memory and list.
unfoldable pub remove_from_tail : Memory → DoubleLlist → Ptr × Memory × DoubleLlist
remove_from_tail m list =
    if list.tail == null
    then (null, m, list)
    else let res = list.tail in
      let tail = m.mr_prev res in
      let size = (list.size + 2 ^ 32 - 1) % 2 ^ 32 in
      if tail == null
      then (res, set_prev m res null, record { head = null; tail = tail; size = size })
      else (
        res,
        set_prev (set_next m tail null) res null,
        record { head = list.head; tail = tail; size = size },
      )

-- The first half of `remove_node`: the node before, or the head of the list, skips the node.
unlink_left : Memory → Ptr → Ptr → Memory × Ptr
unlink_left m head node =
    if m.mr_prev node == null
    then (m, m.mr_next node)
    else (set_next m (m.mr_prev node) (m.mr_next node), head)

-- The second half: the node behind, or the tail of the list, skips the node.
unlink_right : Memory → Ptr → Ptr → Memory × Ptr
unlink_right m tail node =
    if m.mr_next node == null
    then (m, m.mr_prev node)
    else (set_prev m (m.mr_next node) (m.mr_prev node), tail)

unfoldable pub remove_node : Memory → DoubleLlist → Ptr → Memory × DoubleLlist
unfolding unlink_left unlink_right
remove_node m list node =
    let (m1, head) = unlink_left m list.head node in
    let (m2, tail) = unlink_right m1 list.tail node in
    (m2, record { head = head; tail = tail; size = (list.size + 2 ^ 32 - 1) % 2 ^ 32 })
