-- ===== src/Examples/Hazards.antt =====
-- src/smr.c at concrete threads, with two hazard pointers each.
use qsense.Prelude.{
  ℕ, zero, suc, ◌≡◌, refl, some, List, [], ◌∷◌, ◌++◌, arith, Each, ◌==◌, if◌then◌else◌,
}
use qsense.DoubleLlist.{Ptr}
use qsense.Deque.{remove_from_tail}
use qsense.Smr.{MrNode, Smr, collect, scan_loop, scan, free_node_later}
use qsense.Smr.Scan.{Unprotected, scanned, scan-scanned, scan-Unprotected}
use qsense.Smr.Bound.{IsBounded, Retires, free_node_later-IsBounded}

abbrev wrap : ℕ → Ptr → MrNode
wrap a n = record { address = a; actual_node = n }

-- Thread 0 of one; its second hazard pointer protects node 20.
abbrev s : Smr
s = record {
  hp = λ j. if j == 1 then 20 else 0;
  rlist = wrap 3 30 ∷ wrap 2 20 ∷ wrap 1 10 ∷ [];
  rcount = 3;
  nthreads = 1;
  thread_index = 0;
  hp_index_base = 0;
  freed = [];
}

keeps_protected :
    scan 2 s
    ≡ some (record s { rlist = wrap 2 20 ∷ []; rcount = 1; freed = wrap 1 10 ∷ wrap 3 30 ∷ [] })
unfolding scan scan_loop collect remove_from_tail
keeps_protected = refl

scan-scanned_example : scan 2 s ≡ some (scanned 2 s)
scan-scanned_example = scan-scanned 2 s (omega arith)

scan-Unprotected_example :
    (ws : List MrNode) × (t : Smr) × (scan 2 s ≡ some t)
    × (t.freed ≡ s.freed ++ ws)
    × Each (Unprotected 2 s) ws
scan-Unprotected_example = scan-Unprotected 2 s (omega arith)

s-IsBounded : IsBounded 2 s
s-IsBounded = record {
  distinct = omega arith;
  counted = refl;
  below = omega arith;
  fits = omega arith;
}

free_node_later-IsBounded_example :
    (t : Smr) × (free_node_later 2 s 4 40 ≡ some t) × IsBounded 2 t × Retires s (wrap 4 40) t
free_node_later-IsBounded_example =
    free_node_later-IsBounded 2 s 4 40 s-IsBounded (omega arith) (omega arith)

-- As many retired nodes as fit before a scan: n, …, 1.
abbrev many : ℕ → List MrNode
many zero = []
many (suc n) = wrap (suc n) (suc n) ∷ many n

abbrev full : Smr
full = record s { rlist = many 103; rcount = 103 }

full-IsBounded : IsBounded 2 full
full-IsBounded = record {
  distinct = omega arith;
  counted = refl;
  below = omega arith;
  fits = omega arith;
}
