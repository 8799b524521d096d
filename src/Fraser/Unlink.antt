-- ===== src/Fraser/Unlink.antt =====
-- src/skiplist-fraser/fraser.c: the levels of a skip list after a search has unlinked a marked node.
use qsense.Prelude.{
  ℕ, ◌<◌, ◌≤◌, ◌≡◌, refl, ◌∙◌, sym, ap, subst, Bool, true, false, List, [], ◌∷◌, ◌==◌, ltb,
  if◌then◌else◌, arith, Bool-cases, inl, inr,
}
use qsense.DoubleLlist.{Ptr}
use qsense.Fraser.{Heap, is_marked, get_unmarked}
use qsense.Fraser.Levels.{
  is_tall, IsLevel, Ascends, passes, passes-high, stops_lem, stops-low, passes_lem, last_below,
  first_from, last_below-high, unmarked,
}
use qsense.Fraser.Quiet.{alive}
use qsense.Fraser.Marks.{SameFields}
use qsense.Fraser.Unlinked.{without, AreDead}

module _ (m m1 : Heap) (dead : Ptr → Bool) (key j : ℕ) (t left right : Ptr) where
  pub last_below-key :
      (p : Ptr) (ns : List Ptr) (k : ℕ)
      → (m p).key ≤ k
      → Ascends m k ns t
      → (m p).key ≤ (m (last_below m dead key j p ns)).key
  last_below-key p [] k le asc = omega arith
  last_below-key p (a ∷ ns) k le (lt, asc) = elim (Bool-cases (passes m dead key j a)) [
    | inl on ↦
        let ih = last_below-key a ns (m a).key (omega arith) asc in
        rw on (omega (arith, ih, le, lt))
    | inr off ↦ rw off (last_below-key p ns (m a).key (omega (arith, le, lt)) asc)
  ]

  -- Nodes with other keys are others.
  pub differ_keys : (a : Ptr) → (m a).key < (m left).key → (left == a) ≡ false
  differ_keys a lt = elim (Bool-cases (left == a)) [
    | inr e ↦ e
    | inl e ↦ let same : left ≡ a = ground (arith, e) in absurd (omega (arith, rw same at lt))
  ]

  pub without-high : (ns : List Ptr) (k : ℕ) → key ≤ k → Ascends m k ns t → without m key ns ≡ ns
  without-high [] k le asc = refl
  without-high (a ∷ ns) k le (lt, asc) =
      let differ : ((m a).key == key) ≡ false = ground (arith, le, lt) in
      rw differ (ap (λ xs. a ∷ xs) (without-high ns (m a).key (omega (arith, le, lt)) asc))

  -- Behind the key a level stays as it is.
  pub IsLevel-behind :
      (q : ℕ) (ns : List Ptr) (k : ℕ)
      → ((x : Ptr) → SameFields (m1 x) (m x))
      → ((x : Ptr) → (m1 x).next j ≡ (if left == x then right else (m x).next j))
      → (m left).key < key
      → key ≤ k
      → Ascends m k ns t
      → AreDead m dead key ns
      → IsLevel m dead j q ns t
      → (first_from m dead key j ns t ≡ q) × IsLevel m1 alive j q ns t
  IsLevel-behind q [] k fields nexts low le asc are h = (sym h, h)
  IsLevel-behind q (a ∷ ns) k fields nexts low le (lt, asc) (is, are) h =
      let (keys, vals, flags, tops) = fields a in
      let high : key < (m a).key = omega (arith, le, lt) in
      let above : key ≤ (m a).key = omega (arith, le, lt) in
      let kept : dead a ≡ false = is ∙ ground (arith, high) in
      rw tops (elim (Bool-cases (is_tall m j a)) [
        | inr short ↦
            let (same, rest) =
              IsLevel-behind q ns (m a).key fields nexts low above asc are (rw short at h) in
            rw short (same, rest)
        | inl tall ↦
            let (here, mark, rest) = rw tall at h in
            let apart : (left == a) ≡ false = elim (Bool-cases (left == a)) [
              | inr e ↦ e
              | inl e ↦
                  let same : left ≡ a = ground (arith, e) in
                  absurd (omega (arith, rw same at low, high))
            ] in
            let next = nexts a in
            let (same, rest1) =
              IsLevel-behind (get_unmarked ((m a).next j)) ns (m a).key fields nexts low above asc
                are rest in
            rw (stops_lem m dead key j a tall kept above) (
              rw tall
                (sym here, (here, rw next (rw apart (mark ∙ kept)), rw next (rw apart rest1))))
      ])

  -- What the chain of a level becomes when its neighbours of the key are linked.
  pub IsLevel-unlinked :
      (p : Ptr) (ns : List Ptr) (k : ℕ)
      → ((x : Ptr) → SameFields (m1 x) (m x))
      → ((x : Ptr) → (m1 x).next j ≡ (if left == x then right else (m x).next j))
      → last_below m dead key j p ns ≡ left
      → first_from m dead key j ns t ≡ right
      → is_marked right ≡ false
      → (m left).key < key
      → (m p).key ≤ k
      → Ascends m k ns t
      → AreDead m dead key ns
      → IsLevel m dead j ((m p).next j) ns t
      → IsLevel m1 alive j ((m1 p).next j) (without m key ns) t
  IsLevel-unlinked p [] k fields nexts el er even low le asc are h =
      let itself : (p == p) ≡ true = ground arith in rw (nexts p) (rw (sym el) (rw itself (sym er)))
  IsLevel-unlinked p (a ∷ ns) k fields nexts el er even low le (lt, asc) (is, are) h =
      let (keys, vals, flags, tops) = fields a in
      elim (Bool-cases (ltb (m a).key key)) [
        | inl less ↦
            let under : (m a).key < key = ground (arith, less) in
            let differ : ((m a).key == key) ≡ false = ground (arith, less) in
            let kept = is ∙ differ in
            let er1 = rw (stops-low m dead key j a under) at er in
            rw differ (
              rw tops (elim (Bool-cases (is_tall m j a)) [
                | inr short ↦
                    let off : passes m dead key j a ≡ false = rw short refl in
                    rw short (
                      IsLevel-unlinked p ns (m a).key fields nexts (rw off at el) er1 even low
                        (omega (arith, le, lt)) asc are (rw short at h))
                | inl tall ↦
                    let (here, mark, rest) = rw tall at h in
                    let el1 = rw (passes_lem m dead key j a tall kept under) at el in
                    let rest1 = rw (unmarked m dead key j ((m a).next j) (mark ∙ kept)) at rest in
                    let above : (m a).key ≤ (m left).key =
                      rw (sym el1) (last_below-key a ns (m a).key (omega arith) asc) in
                    let apart : (left == p) ≡ false =
                      differ_keys p (omega (arith, above, le, lt)) in
                    let even_a : is_marked ((m1 a).next j) ≡ false =
                      rw (nexts a) (elim (Bool-cases (left == a)) [
                        | inl same ↦ rw same even
                        | inr other ↦ rw other (mark ∙ kept)
                      ]) in
                    rw tall (
                      rw (nexts p) (rw apart here),
                      even_a,
                      rw (unmarked m dead key j ((m1 a).next j) even_a) (
                          IsLevel-unlinked a ns (m a).key fields nexts el1 er1 even low
                            (omega arith) asc are rest1),
                    )
              ]))
        | inr more ↦
            let high : key ≤ (m a).key = ground (arith, more) in
            let last : p ≡ left =
              sym (last_below-high m dead key j p ns t (m a).key high asc)
              ∙ (rw (passes-high m dead key j a high) at el) in
            let itself : (left == p) ≡ true = ground (arith, last) in
            elim (Bool-cases ((m a).key == key)) [
              | inl same ↦
                  let er1 = rw (is ∙ same) at er in
                  let er2 : first_from m dead key j ns t ≡ right =
                    elim (Bool-cases (is_tall m j a)) [
                      | inl tall ↦ rw tall at er1
                      | inr short ↦ rw short at er1
                    ] in
                  rw same (
                    rw (nexts p) (
                      rw itself (elim (Bool-cases (is_tall m j a)) [
                        | inl tall ↦
                            let (here, mark, rest) = rw tall at h in
                            let (found, rest1) =
                              IsLevel-behind (get_unmarked ((m a).next j)) ns (m a).key fields nexts
                                low high asc are rest in
                            subst (λ q. IsLevel m1 alive j q ns t) (sym found ∙ er2) rest1
                        | inr short ↦
                            let (found, rest1) =
                              IsLevel-behind ((m p).next j) ns (m a).key fields nexts low high asc
                                are (rw short at h) in
                            subst (λ q. IsLevel m1 alive j q ns t) (sym found ∙ er2) rest1
                      ])))
              | inr differ ↦
                  let above : key < (m a).key = ground (arith, high, differ) in
                  let (found, rest) =
                    IsLevel-behind ((m p).next j) (a ∷ ns) key fields nexts low (omega arith)
                      (above, asc) (is, are) h in
                  let off = without-high ns (m a).key high asc in
                  rw differ (
                    rw off (
                      rw (nexts p) (
                        rw itself
                          (subst (λ q. IsLevel m1 alive j q (a ∷ ns) t) (sym found ∙ er) rest))))
            ]
      ]
