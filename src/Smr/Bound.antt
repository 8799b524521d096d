-- ===== src/Smr/Bound.antt =====
-- How much src/smr.c leaves unreclaimed.
use qsense.Prelude.{
  ℕ, ◌+◌, ◌%◌, ◌^◌, ◌==◌, ◌≢◌, true, false, refl, ap, not, some, ◌∷◌, leb, length, keep, backwards,
  ◌<◌, ◌≤◌, length-backwards, length-keep, leb, IsDistinctBy, occurrences, keep-has-le,
  keep-IsDistinctBy, ◌≡◌, arith, length-append, Bool-cases, inl, inr,
}
use qsense.DoubleLlist.{Ptr, null}
use qsense.Smr.{MrNode, Smr, hazard_count, scan_limit, collect, free_node_later}
use qsense.Smr.Scan.{
  is_hazardous, scanned, scan-scanned, ssearch-collect, scanned-occurrences, collect-length,
}

-- The retired nodes differ, the count is theirs, and there are fewer than `R`, which fits `rcount`.
pub record IsBounded (k : ℕ) (s : Smr) : Type 0 where
  pub distinct : IsDistinctBy (λ (w : MrNode). w.actual_node) s.rlist
  pub counted : s.rcount ≡ length s.rlist
  pub below : length s.rlist < scan_limit k s.nthreads
  pub fits : scan_limit k s.nthreads < 2 ^ 32

pub kept-le :
    (k : ℕ) (s : Smr)
    → IsDistinctBy (λ (w : MrNode). w.actual_node) s.rlist
    → length (keep (is_hazardous k s) s.rlist) ≤ hazard_count k s.nthreads
kept-le k s d = omega (
  arith,
  ap (λ q. length (keep q s.rlist)) (ssearch-collect k s),
  keep-has-le (λ (w : MrNode). w.actual_node) (collect s.hp (hazard_count k s.nthreads) 0) s.rlist
      d,
  collect-length s.hp (hazard_count k s.nthreads) 0,
)

abbrev linked : Smr → Ptr → Ptr → Smr
linked s wrapper n = record s {
  rlist = record { address = wrapper; actual_node = n } ∷ s.rlist;
  rcount = (s.rcount + 1) % 2 ^ 32;
}

pub scanned-IsBounded :
    (k : ℕ) (s : Smr)
    → IsDistinctBy (λ (w : MrNode). w.actual_node) s.rlist
    → scan_limit k s.nthreads < 2 ^ 32
    → IsBounded k (scanned k s)
scanned-IsBounded k s d f = record {
  distinct = keep-IsDistinctBy (λ (w : MrNode). w.actual_node) (is_hazardous k s) s.rlist d;
  counted = omega (arith, kept-le k s d);
  below = omega (arith, kept-le k s d);
  fits = f;
}

-- What the retired and the freed have together is the same, and `w` besides.
abbrev pub Retires : Smr → MrNode → Smr → Type 0
Retires s w t =
    (f : MrNode → ℕ) (x : ℕ)
    → occurrences f x t.rlist + occurrences f x t.freed
      ≡ occurrences f x (w ∷ s.rlist) + occurrences f x s.freed

-- Where the retired nodes differ, rcount is their number and they are fewer than R, which is below
-- 2 ^ 32: free_node_later, given a wrapper that is not NULL and a node that is not retired already,
-- never faults, keeps these conditions, so that fewer than R nodes are retired and not freed, and
-- loses none: the wrappers retired or freed afterwards are, each as often, those before and the new
-- one.
pub free_node_later-IsBounded :
    (k : ℕ) (s : Smr) (wrapper n : Ptr)
    → IsBounded k s
    → wrapper ≢ null
    → occurrences (λ (w : MrNode). w.actual_node) n s.rlist ≡ 0
    → (t : Smr) × (free_node_later k s wrapper n ≡ some t)
      × IsBounded k t
      × Retires s (record { address = wrapper; actual_node = n }) t
unfolding free_node_later
free_node_later-IsBounded k s wrapper n b block new =
    let given : (wrapper == null) ≡ false = ground arith in
    elim (Bool-cases (leb (scan_limit k s.nthreads) ((s.rcount + 1) % 2 ^ 32))) [
      | inl full ↦ (
        scanned k (linked s wrapper n),
        rw given (rw full (scan-scanned k (linked s wrapper n) (omega (arith, b.below, b.fits)))),
        scanned-IsBounded k (linked s wrapper n) (new, b.distinct) b.fits,
        scanned-occurrences k (linked s wrapper n),
      )
      | inr room ↦ (
        linked s wrapper n,
        rw given (rw room refl),
        record {
          distinct = (new, b.distinct);
          counted = omega (arith, b.counted, b.below, b.fits);
          below = ground (arith, b.counted, b.below, b.fits);
          fits = b.fits;
        },
        λ f x. refl,
      )
    ]

-- When free_node_later brings the count to R, it frees at least R - H nodes, that is 100 + H.
free_node_later-amortised :
    (k : ℕ) (s : Smr) (wrapper n : Ptr)
    → IsBounded k s
    → wrapper ≢ null
    → occurrences (λ (w : MrNode). w.actual_node) n s.rlist ≡ 0
    → s.rcount + 1 ≡ scan_limit k s.nthreads
    → (t : Smr) × (free_node_later k s wrapper n ≡ some t)
      × (length s.freed + 100 + hazard_count k s.nthreads ≤ length t.freed)
unfolding free_node_later
free_node_later-amortised k s wrapper n b block new full =
    let given : (wrapper == null) ≡ false = ground arith in
    let l : Smr = linked s wrapper n in
    let is_full : leb (scan_limit k s.nthreads) ((s.rcount + 1) % 2 ^ 32) ≡ true =
      ground (arith, full, b.fits) in
    (
      scanned k l,
      rw given (rw is_full (scan-scanned k l (omega (arith, b.below, b.fits)))),
      omega (
        arith,
        length-append {0} s.freed (backwards (keep (λ w. not (is_hazardous k l w)) l.rlist)),
        length-backwards {0} (keep (λ w. not (is_hazardous k l w)) l.rlist),
        length-keep {0} (is_hazardous k l) l.rlist,
        kept-le k l (new, b.distinct),
        b.counted,
      ),
    )
