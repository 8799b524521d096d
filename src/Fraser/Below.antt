-- ===== src/Fraser/Below.antt =====
-- src/skiplist-fraser: going on at a lower level from where the level above has been left.
use qsense.Prelude.{
  ℕ, ◌<◌, ◌≤◌, ◌≡◌, refl, ◌∙◌, sym, Bool, true, List, [], ◌∷◌, ltb, if◌then◌else◌, length, arith,
  Bool-cases, inl, inr, ◌⊎◌,
}
use qsense.DoubleLlist.{Ptr}
use qsense.Fraser.{Heap, get_unmarked}
use qsense.Fraser.Levels.{
  is_tall, IsLevel, Ascends, passes, last_below, first_from, rest_of, passes-cases, stops-low,
  passes_lem, unmarked,
}

module _ (m : Heap) (dead : Ptr → Bool) (key i : ℕ) (t : Ptr) where
  is_tall-below : (j : ℕ) (a : Ptr) → j ≤ i → is_tall m i a ≡ true → is_tall m j a ≡ true
  is_tall-below j a le tall = ground (arith, le, tall)

  -- The lower level behind the node that the search goes on from.
  pub rest_of-IsLevel :
      (j : ℕ) (p : Ptr) (cur ns : List Ptr) (q : ℕ)
      → j ≤ i
      → IsLevel m dead j ((m p).next j) cur t
      → IsLevel m dead j q ns t
      → IsLevel m dead j ((m (last_below m dead key i p ns)).next j) (rest_of m dead key i cur ns) t
  rest_of-IsLevel j p cur [] q le h g = h
  rest_of-IsLevel j p cur (a ∷ ns) q le h g = elim (Bool-cases (passes m dead key i a)) [
    | inl on ↦
        let (tall, kept, low) = passes-cases m dead key i a on in
        let (here, mark, rest) = rw (is_tall-below j a le tall) at g in
        let rest1 = rw (unmarked m dead key i ((m a).next j) (mark ∙ kept)) at rest in
        rw on (rest_of-IsLevel j a ns ns ((m a).next j) le rest1 rest1)
    | inr off ↦ rw off (elim (Bool-cases (is_tall m j a)) [
      | inl tall ↦
          let (here, mark, rest) = rw tall at g in
          rest_of-IsLevel j p cur ns (get_unmarked ((m a).next j)) le h rest
      | inr short ↦ rest_of-IsLevel j p cur ns q le h (rw short at g)
    ])
  ]

  -- What a lower level finds from there is what it finds from the start.
  pub last_below-rest_of :
      (j : ℕ) (p r : Ptr) (cur ns : List Ptr)
      → j ≤ i
      → last_below m dead key j p cur ≡ last_below m dead key j r ns
      → last_below m dead key j (last_below m dead key i p ns) (rest_of m dead key i cur ns)
        ≡ last_below m dead key j r ns
  last_below-rest_of j p r cur [] le e = e
  last_below-rest_of j p r cur (a ∷ ns) le e = elim (Bool-cases (passes m dead key i a)) [
    | inl on ↦
        let (tall, kept, low) = passes-cases m dead key i a on in
        let on_j = passes_lem m dead key j a (is_tall-below j a le tall) kept low in
        rw on (rw on_j (last_below-rest_of j a a ns ns le refl))
    | inr off ↦ rw off (last_below-rest_of j p (if passes m dead key j a then a else r) cur ns le e)
  ]

  pub first_from-rest_of :
      (j : ℕ) (cur ns : List Ptr) (k : ℕ)
      → Ascends m k ns t
      → (first_from m dead key j cur t ≡ first_from m dead key j ns t) ⊎ (key ≤ k)
      → first_from m dead key j (rest_of m dead key i cur ns) t ≡ first_from m dead key j cur t
  first_from-rest_of j cur [] k asc e = refl
  first_from-rest_of j cur (a ∷ ns) k (lt, asc) e = elim (Bool-cases (passes m dead key i a)) [
    | inl on ↦
        let (tall, kept, low) = passes-cases m dead key i a on in
        let same : first_from m dead key j cur t ≡ first_from m dead key j ns t = elim e [
          | inl e ↦ rw (stops-low m dead key j a low) at e
          | inr le ↦ absurd (omega (arith, le, lt, low))
        ] in
        rw on (first_from-rest_of j ns ns (m a).key asc (inl refl) ∙ sym same)
    | inr off ↦ rw off (
        first_from-rest_of j cur ns (m a).key asc (elim (Bool-cases (ltb (m a).key key)) [
          | inr more ↦ inr (ground (arith, more))
          | inl less ↦ elim e [
            | inl e ↦ inl (rw (stops-low m dead key j a (ground (arith, less))) at e)
            | inr le ↦ absurd (ground (arith, le, lt, less))
          ]
        ]))
  ]

  pub rest_of-Ascends :
      (p : Ptr) (cur ns : List Ptr) (k : ℕ)
      → Ascends m (m p).key cur t
      → Ascends m k ns t
      → Ascends m (m (last_below m dead key i p ns)).key (rest_of m dead key i cur ns) t
  rest_of-Ascends p cur [] k h asc = h
  rest_of-Ascends p cur (a ∷ ns) k h (lt, asc) = elim (Bool-cases (passes m dead key i a)) [
    | inl on ↦ rw on (rest_of-Ascends a ns ns (m a).key asc asc)
    | inr off ↦ rw off (rest_of-Ascends p cur ns (m a).key h asc)
  ]

  pub length-rest_of :
      (fuel : ℕ) (cur ns : List Ptr)
      → length cur < fuel
      → length ns < fuel
      → length (rest_of m dead key i cur ns) < fuel
  length-rest_of fuel cur [] h g = h
  length-rest_of fuel cur (a ∷ ns) h g = elim (Bool-cases (passes m dead key i a)) [
    | inl on ↦ rw on (length-rest_of fuel ns ns (omega (arith, g)) (omega (arith, g)))
    | inr off ↦ rw off (length-rest_of fuel cur ns h (omega (arith, g)))
  ]
