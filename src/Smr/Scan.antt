-- ===== src/Smr/Scan.antt =====
-- What one `scan` of src/smr.c frees and what it keeps.
use qsense.Prelude.{
  ℕ, zero, suc, ◌+◌, ◌%◌, ◌^◌, ◌&&◌, ◌||◌, Bool, false, not, some, List, [], ◌∷◌, ◌++◌, ◌==◌,
  length, has, keep, backwards, ◌<◌, ◌≤◌, ◌≢◌, subst, Each, Each-keep, Each-backwards,
  length-backwards, backwards-snoc, backwards-backwards, keep-append, append-nil, occurrences,
  occurrences-append, occurrences-backwards, occurrences-keep, append_assoc, ◌≡◌, refl, ◌∙◌, sym,
  ap, arith, length-append, Bool-cases, inl, inr,
}
use qsense.DoubleLlist.{Ptr, null}
use qsense.Deque.{remove_from_tail-append}
use qsense.Smr.{MrNode, Smr, Sorted, hazard_count, collect, ssearch, keep_or_free, scan_loop, scan}

-- Some of the entries `i`, …, `i + n - 1` of the array is `p`.
abbrev pub points : (ℕ → Ptr) → (n i : ℕ) → Ptr → Bool
points hp zero i p = false
points hp (suc n) i p = (hp i == p) || points hp n (i + 1) p

-- A node that some hazard pointer of some thread protects: the array of all threads, itself.
abbrev pub is_hazardous : ℕ → Smr → MrNode → Bool
is_hazardous k s w =
    not (w.actual_node == null) && points s.hp (hazard_count k s.nthreads) 0 w.actual_node

-- The collected list has what the array has, null left out.
collect-points :
    (hp : ℕ → Ptr) (n i : ℕ) (p : Ptr)
    → has p (collect hp n i) ≡ (not (p == null) && points hp n i p)
unfolding collect
collect-points hp zero i p = ground arith
collect-points hp (suc n) i p = ground (arith, collect-points hp n (i + 1) p)

-- The code's test of a node is whether the array protects it.
pub ssearch-collect :
    (k : ℕ) (s : Smr)
    → (λ (w : MrNode). ssearch (collect s.hp (hazard_count k s.nthreads) 0) w.actual_node)
      ≡ is_hazardous k s
ssearch-collect k s = λ i w. collect-points s.hp (hazard_count k s.nthreads) 0 w.actual_node i

-- The outcome of the loop: the nodes in `plist` go to the head in order, the others are freed.
abbrev sorted : List Ptr → List MrNode → Sorted → Sorted
sorted plist ws st =
    let hazardous = λ (w : MrNode). ssearch plist w.actual_node in
    record {
      rlist = keep hazardous ws ++ st.rlist;
      rcount = (st.rcount + length (keep hazardous ws)) % 2 ^ 32;
      freed = st.freed ++ backwards (keep (λ w. not (hazardous w)) ws);
    }

scan_loop-snoc :
    (plist : List Ptr) (size : ℕ) (ws : List MrNode) (cur : MrNode) (st : Sorted)
    → scan_loop plist (suc size) (ws ++ cur ∷ []) st
      ≡ scan_loop plist size ws (keep_or_free plist cur st)
unfolding scan_loop
scan_loop-snoc plist size ws cur st = rw (remove_from_tail-append ws cur, scan_loop)

Sorted-path : (a b : Sorted) → a.rlist ≡ b.rlist → a.rcount ≡ b.rcount → a.freed ≡ b.freed → a ≡ b
Sorted-path a b p q r = λ i. record { rlist = p i; rcount = q i; freed = r i }

sorted-snoc :
    (plist : List Ptr) (ws : List MrNode) (cur : MrNode) (st : Sorted)
    → sorted plist ws (keep_or_free plist cur st) ≡ sorted plist (ws ++ cur ∷ []) st
sorted-snoc plist ws cur st =
    let hazardous : MrNode → Bool = λ w. ssearch plist w.actual_node in
    elim (Bool-cases (ssearch plist cur.actual_node)) [
      | inl hit ↦ rw (keep-append hazardous ws (cur ∷ [])) (
          rw (keep-append (λ w. not (hazardous w)) ws (cur ∷ [])) (
            rw hit (
              Sorted-path _ _ (sym (append_assoc (keep hazardous ws) (cur ∷ []) st.rlist))
                (omega (arith, length-append {0} (keep hazardous ws) (cur ∷ []))) (rw append-nil))))
      | inr miss ↦ rw (keep-append hazardous ws (cur ∷ [])) (
          rw (keep-append (λ w. not (hazardous w)) ws (cur ∷ [])) (
            rw miss (
              Sorted-path _ _ (rw append-nil) (rw append-nil)
                (rw backwards-snoc (append_assoc st.freed (cur ∷ []) _)))))
    ]

scan_loop-backwards :
    (plist : List Ptr) (ws : List MrNode) (st : Sorted)
    → st.rcount < 2 ^ 32
    → scan_loop plist (length ws) (backwards ws) st ≡ some (sorted plist (backwards ws) st)
unfolding scan_loop
scan_loop-backwards plist [] st small =
    ap some (Sorted-path _ _ refl (omega arith) (sym (append-nil st.freed)))
scan_loop-backwards plist (w ∷ ws) st small =
    scan_loop-snoc plist (length ws) (backwards ws) w st
    ∙ scan_loop-backwards plist ws (keep_or_free plist w st) (ground arith)
    ∙ ap some (sorted-snoc plist (backwards ws) w st)

scan_loop-sorted :
    (plist : List Ptr) (ws : List MrNode) (st : Sorted)
    → st.rcount < 2 ^ 32
    → scan_loop plist (length ws) ws st ≡ some (sorted plist ws st)
scan_loop-sorted plist ws st small =
    subst (λ xs. scan_loop plist (length xs) xs st ≡ some (sorted plist xs st))
      (backwards-backwards ws)
      (rw (length-backwards (backwards ws)) (scan_loop-backwards plist (backwards ws) st small))

-- What `scan` is to leave.
abbrev pub scanned : ℕ → Smr → Smr
scanned k s = record s {
  rlist = keep (is_hazardous k s) s.rlist;
  rcount = length (keep (is_hazardous k s) s.rlist) % 2 ^ 32;
  freed = s.freed ++ backwards (keep (λ w. not (is_hazardous k s w)) s.rlist);
}

-- scan of fewer than 2 ^ 32 retired nodes ends without a fault: it keeps the nodes whose address, not
-- null, stands among the hazard pointers of all threads, in their order, counts them, and frees all
-- others, the oldest first.
pub scan-scanned : (k : ℕ) (s : Smr) → length s.rlist < 2 ^ 32 → scan k s ≡ some (scanned k s)
unfolding scan
scan-scanned k s few =
    let size : length s.rlist % 2 ^ 32 ≡ length s.rlist = omega arith in
    let kept = keep (is_hazardous k s) s.rlist in
    let blank : Sorted = record { rlist = []; rcount = 0; freed = s.freed } in
    let counted : (0 + length kept) % 2 ^ 32 ≡ length kept % 2 ^ 32 = omega arith in
    let plist = collect s.hp (hazard_count k s.nthreads) 0 in
    let looped : scan_loop plist (length s.rlist % 2 ^ 32) s.rlist blank
        ≡ some (sorted plist s.rlist blank) =
      rw size (scan_loop-sorted plist s.rlist blank (omega arith)) in
    let tests = ssearch-collect k s in
    let outcome : sorted plist s.rlist blank ≡ record {
      rlist = kept;
      rcount = length kept % 2 ^ 32;
      freed = s.freed ++ backwards (keep (λ w. not (is_hazardous k s w)) s.rlist);
    } =
      Sorted-path _ _ (append-nil (keep _ s.rlist) ∙ ap (λ q. keep q s.rlist) tests)
        (ap (λ q. (0 + length (keep q s.rlist)) % 2 ^ 32) tests ∙ counted)
        (ap (λ q. s.freed ++ backwards (keep (λ (w : MrNode). not (q w)) s.rlist)) tests) in
    rw (looped, scan)
      (λ i. some (record s {
        rlist = (outcome i).rlist;
        rcount = (outcome i).rcount;
        freed = (outcome i).freed;
      }))

points-false :
    (hp : ℕ → Ptr) (n i : ℕ) (p : Ptr)
    → points hp n i p ≡ false
    → (j : ℕ) → i ≤ j
    → j < i + n
    → hp j ≢ p
points-false hp zero i p out j lo hi e = absurd (omega arith)
points-false hp (suc n) i p out j lo hi e = elim (Bool-cases (i == j)) [
  | inl here ↦ ground arith
  | inr later ↦ points-false hp n (i + 1) p (ground arith) j (ground arith) (omega arith) e
]

pub collect-length : (hp : ℕ → Ptr) (n i : ℕ) → length (collect hp n i) ≤ n
unfolding collect
collect-length hp zero i = omega arith
collect-length hp (suc n) i = ground (arith, collect-length hp n (i + 1))

-- A node that is not hazardous is no hazard pointer's target.
pub is_hazardous_sound :
    (k : ℕ) (s : Smr) (w : MrNode)
    → is_hazardous k s w ≡ false
    → w.actual_node ≢ null
    → (j : ℕ) → j < hazard_count k s.nthreads
    → s.hp j ≢ w.actual_node
is_hazardous_sound k s w safe ne j lt =
    points-false s.hp (hazard_count k s.nthreads) 0 w.actual_node (ground arith) j (omega arith)
      (omega arith)

-- The outcome loses no wrapper and makes none up.
pub scanned-occurrences :
    (k : ℕ) (s : Smr) (f : MrNode → ℕ) (x : ℕ)
    → occurrences f x (scanned k s).rlist + occurrences f x (scanned k s).freed
      ≡ occurrences f x s.rlist + occurrences f x s.freed
scanned-occurrences k s f x =
    let others : List MrNode = keep (λ w. not (is_hazardous k s w)) s.rlist in
    omega (
      arith,
      occurrences-append f x s.freed (backwards others),
      occurrences-backwards f x others,
      occurrences-keep f (is_hazardous k s) x s.rlist,
    )

-- No hazard pointer holds the node's address.
abbrev pub Unprotected : ℕ → Smr → MrNode → Type 0
Unprotected k s w =
    w.actual_node ≢ null → (j : ℕ) → j < hazard_count k s.nthreads → s.hp j ≢ w.actual_node

-- scan frees only nodes that no hazard pointer of any thread protects.
pub scan-Unprotected :
    (k : ℕ) (s : Smr)
    → length s.rlist < 2 ^ 32
    → (ws : List MrNode) × (t : Smr) × (scan k s ≡ some t)
      × (t.freed ≡ s.freed ++ ws)
      × Each (Unprotected k s) ws
scan-Unprotected k s few = (
  backwards (keep (λ w. not (is_hazardous k s w)) s.rlist),
  scanned k s,
  scan-scanned k s few,
  refl,
  Each-backwards (Unprotected k s) _
      (Each-keep (Unprotected k s) _ s.rlist (λ w safe. is_hazardous_sound k s w (ground arith))),
)
