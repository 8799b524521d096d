-- ===== src/Bst/Insert.antt =====
-- src/bst-aravind: `bst_insert` while no other thread interferes.
use qsense.Prelude.{
  ℕ, ◌≡◌, ◌≢◌, ◌∙◌, sym, ap, subst, Bool, true, false, ◌==◌, ltb, if◌then◌else◌, arith, Bool-cases,
  inl, inr,
}
use qsense.DoubleLlist.{Ptr, null}
use qsense.Bst.{
  Node, Heap, Side, side, child, set_child, opposite, SeekRecord, max, join, create_node,
}
use qsense.Bst.Tree.{Tree, leaf, node, root, IsAddress, IsTree, Avoids, IsProper}
use qsense.Bst.Grow.{grow}
use qsense.Bst.Seek.{arrive, root-IsAddress}
use qsense.Bst.Change.{
  Every, Changed, Changed-left, Changed-right, child_same, side_less, side_more, left_of, right_of,
  set_child_self, set_child_other, set_child_key, set_child_ne,
}

-- The heap with the two new nodes over the leaf `l`.
abbrev pub planted : Heap → (key val : ℕ) → (bi bn l : Ptr) → Heap
planted m key val bi bn l =
    join (create_node (create_node m bi (max key (m l).key) 0) bn key val) bi bn l key

module _ (m : Heap) (key val : ℕ) (bi bn l : Ptr) (apart : bi ≢ bn) (li : l ≢ bi)
    (ln : l ≢ bn) where
  pub planted_ne : (x : Ptr) → x ≢ bi → x ≢ bn → planted m key val bi bn l x ≡ m x
  planted_ne x i n = ground arith

  pub planted_new :
      planted m key val bi bn l bn ≡ record { key = key; value = val; right = null; left = null }
  planted_new = ground arith

  pub planted-max : (planted m key val bi bn l bi).key ≡ max key (m l).key
  planted-max = ground arith

  planted_less :
      ltb key (m l).key ≡ true
      → planted m key val bi bn l bi
        ≡ record { key = max key (m l).key; value = 0; right = l; left = bn }
  planted_less less = ground (arith, less)

  planted_more :
      ltb key (m l).key ≡ false
      → planted m key val bi bn l bi
        ≡ record { key = max key (m l).key; value = 0; right = bn; left = l }
  planted_more more = ground (arith, more)

-- The map with one more key.
abbrev pub bind : (key val : ℕ) → (k v : ℕ) → ℕ
bind key val k v = if k == key then val else v

-- The heap after the CAS of an insertion that has arrived at `r`.
abbrev pub linked : Heap → (key val : ℕ) → (bi bn : Ptr) → SeekRecord → Heap
linked m key val bi bn r =
    set_child (planted m key val bi bn r.leaf) r.parent (side key (m r.parent).key) bi

-- The nodes that were there before.
abbrev pub IsOld : (bi bn x : Ptr) → Type 0
IsOld bi bn x = (x ≢ bi) × (x ≢ bn)

pub Every-IsOld : (bi bn : Ptr) (t : Tree) → Avoids bi t → Avoids bn t → Every (IsOld bi bn) t
Every-IsOld bi bn (leaf a) i n = ((λ e. i (sym e)), (λ e. n (sym e)))
Every-IsOld bi bn (node a t u) (i, it, iu) (n, nt, nu) =
    (((λ e. i (sym e)), (λ e. n (sym e))), Every-IsOld bi bn t it nt, Every-IsOld bi bn u iu nu)

module _ (m : Heap) (key val : ℕ) (bi bn : Ptr) (apart : bi ≢ bn) (bi_ok : IsAddress bi)
    (bn_ok : IsAddress bn) where
  linked-leaf :
      (a q : Ptr)
      → IsTree m a (leaf a)
      → ((m a).key == key) ≡ false
      → q ≢ a
      → IsOld bi bn q
      → IsOld bi bn a
      → (let s = side key (m q).key in
          let m1 = set_child (planted m key val bi bn a) q s bi in
          Changed m m1 (IsOld bi bn) q s (leaf a) (grow m key bi bn (leaf a)) (bind key val))
  linked-leaf a q (at, ok, l, r) fresh q_a (qi, qn) (ai, an) =
      let s = side key (m q).key in
      let p = planted m key val bi bn a in
      let m1 = set_child p q s bi in
      let p_ne = planted_ne m key val bi bn a apart ai an in
      let q_same = p_ne q qi qn in
      let at_a : m1 a ≡ m a = set_child_ne p q s bi a (λ e. q_a (sym e)) ∙ p_ne a ai an in
      let at_bi : m1 bi ≡ p bi = set_child_ne p q s bi bi (λ e. qi (sym e)) in
      let at_bn =
        set_child_ne p q s bi bn (λ e. qn (sym e)) ∙ planted_new m key val bi bn a apart ai an in
      let self = set_child_self p q s bi in
      record {
        below = elim (Bool-cases (ltb key (m a).key)) [
          | inl less ↦
              let at_i = at_bi ∙ planted_less m key val bi bn a apart ai an less in
              rw less (
                self,
                bi_ok,
                (left_of at_i, bn_ok, left_of at_bn, right_of at_bn),
                (right_of at_i, ok, left_of at_a ∙ l, right_of at_a ∙ r),
              )
          | inr more ↦
              let at_i = at_bi ∙ planted_more m key val bi bn a apart ai an more in
              rw more (
                self,
                bi_ok,
                (left_of at_i, ok, left_of at_a ∙ l, right_of at_a ∙ r),
                (right_of at_i, bn_ok, left_of at_bn, right_of at_bn),
              )
        ];
        other = set_child_other p q s bi ∙ child_same m p q (opposite s) q_same;
        key_same = set_child_key p q s bi ∙ ap (λ (n : Node). n.key) q_same;
        frame = λ x ne ne_a (xi, xn). set_child_ne p q s bi x ne ∙ p_ne x xi xn;
        reads = λ k. elim (Bool-cases (ltb key (m a).key)) [
          | inl less ↦
              let at_i = at_bi ∙ planted_less m key val bi bn a apart ai an less in
              rw less (rw at_i (rw at_bn (rw at_a (ground (arith, less, fresh)))))
          | inr more ↦
              let at_i = at_bi ∙ planted_more m key val bi bn a apart ai an more in
              rw more (rw at_i (rw at_bn (rw at_a (ground (arith, more, fresh)))))
        ];
      }

  -- Below an edge that the search takes, the insertion grows the tree and binds the key.
  pub linked-Changed :
      (t : Tree) (anc above q : Ptr)
      → child m q (side key (m q).key) ≡ root t
      → IsTree m (root t) t
      → IsProper t
      → Avoids q t
      → IsOld bi bn q
      → Avoids bi t
      → Avoids bn t
      → (let r =
            arrive m key
              (record { ancestor = anc; successor = above; parent = q; leaf = root t })
              t in
          ((m r.leaf).key == key) ≡ false
          → Changed m
              (linked m key val bi bn r)
              (IsOld bi bn)
              q
              (side key (m q).key)
              t
              (grow m key bi bn t)
              (bind key val))
  linked-Changed (leaf a) anc above q to_a h proper q_t old i n fresh =
      linked-leaf a q h fresh q_t old ((λ e. i (sym e)), (λ e. n (sym e)))
  linked-Changed (node a t u) anc above q to_a (at, ok, ht, hu) (a_t, a_u, t_u, u_t, pt, pu)
        (qa, qt, qu) old (i, it, iu) (n, nt, nu) fresh =
      let old_a : IsOld bi bn a = ((λ e. i (sym e)), (λ e. n (sym e))) in
      let rt = arrive m key (record { ancestor = q; successor = a; parent = a; leaf = root t }) t in
      let ru = arrive m key (record { ancestor = q; successor = a; parent = a; leaf = root u }) u in
      let fresh_at = λ (b : Bool). ((m (if b then rt else ru).leaf).key == key) ≡ false in
      elim (Bool-cases (ltb key (m a).key)) [
        | inl less ↦
            let m1 = linked m key val bi bn rt in
            let (e, good) = root-IsAddress m (m a).left t ht in
            let ih =
              linked-Changed t q a a (rw less e) (subst (λ p. IsTree m p t) e ht) pt a_t old_a it nt
                (subst fresh_at less fresh) in
            let at_left =
              λ (s : Side). Changed m m1 (IsOld bi bn) a s t (grow m key bi bn t) (bind key val) in
            rw less (
              Changed-left m m1 (IsOld bi bn) q a (side key (m q).key) t (grow m key bi bn t) u
                (bind key val) to_a ok qa qt old a_u u_t (Every-IsOld bi bn u iu nu)
                (subst at_left (side_less key (m a).key less) ih)
                (λ k v le. ground (arith, le, less)) hu)
        | inr more ↦
            let m1 = linked m key val bi bn ru in
            let (e, good) = root-IsAddress m (m a).right u hu in
            let ih =
              linked-Changed u q a a (rw more e) (subst (λ p. IsTree m p u) e hu) pu a_u old_a iu nu
                (subst fresh_at more fresh) in
            let at_right =
              λ (s : Side). Changed m m1 (IsOld bi bn) a s u (grow m key bi bn u) (bind key val) in
            rw more (
              Changed-right m m1 (IsOld bi bn) q a (side key (m q).key) u (grow m key bi bn u) t
                (bind key val) to_a ok qa qu old a_t t_u (Every-IsOld bi bn t it nt)
                (subst at_right (side_more key (m a).key more) ih)
                (λ k v lt. ground (arith, lt, more)) ht)
      ]
