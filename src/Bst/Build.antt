-- ===== src/Bst/Build.antt =====
-- src/bst-aravind: `initialize_tree`.
use qsense.Prelude.{ℕ, ◌≡◌, ◌≢◌, arith}
use qsense.DoubleLlist.{Ptr}
use qsense.Bst.{Heap, initialize_tree}
use qsense.Bst.Tree.{leaf, IsAddress, lookup}
use qsense.Bst.Order.{IsValid}

-- `initialize_tree`, with five different blocks, makes a valid tree whose one leaf is the sentinel; every key
-- below the sentinels' is mapped to 0.
initialize_tree-IsValid :
    (m : Heap) (r s l0 l1 l2 : Ptr)
    → IsAddress s
    → IsAddress l0
    → r ≢ s
    → r ≢ l0
    → r ≢ l1
    → r ≢ l2
    → s ≢ l0
    → s ≢ l1
    → s ≢ l2
    → l0 ≢ l1
    → l0 ≢ l2
    → (let (m1, node_r) = initialize_tree m r s l0 l1 l2 in
        IsValid m1 node_r s (leaf l0) × ((k : ℕ) → lookup m1 k (leaf l0) ≡ 0))
unfolding initialize_tree
initialize_tree-IsValid m r s l0 l1 l2 s_ok l_ok rs rl rl1 rl2 sl sl1 sl2 l01 l02 = (
  record {
    rooted = (ground arith, s_ok, (ground arith, l_ok, ground arith, ground arith), ground arith);
    s_key = ground arith;
    crowned = ground arith;
    proper = tt;
    ordered = tt;
    apart = rs;
    r_out = rl;
    s_out = sl;
  },
  λ k. ground arith,
)
