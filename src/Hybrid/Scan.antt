-- ===== src/Hybrid/Scan.antt =====
-- What one `scan` of src/hybrid_optimized.c frees and what it keeps.
use qsense.Prelude.{
  ℕ, zero, suc, ◌+◌, ◌-◌, ◌%◌, ◌^◌, Bool, true, false, not, List, [], ◌∷◌, ◌++◌, ◌==◌, length, has,
  keep, backwards, ◌<◌, ◌≤◌, ◌≢◌, Each, Each-append, append-nil, append_assoc, ◌≡◌, refl, ◌∙◌, sym,
  ap, arith, length-append, length-backwards, Bool-cases, inl, inr, if◌then◌else◌, put, put_self,
  subst,
}
use qsense.DoubleLlist.{Ptr, null}
use qsense.Hybrid.State.{TimeVal, MrNode, ThreadData, Hybrid, hazard_count, set_data}
use qsense.Hybrid.Hazards.{is_old_enough, collect, ssearch, sweep, scan_slot, scan}

-- A clock reading for each node, and the hazard pointers that were read.
module _ (clock : MrNode → TimeVal) (plist : List Ptr) where
  -- The nodes that the loop over a limbo list reaches before it stops, and those behind them.
  abbrev pub reached : List MrNode → List MrNode
  reached [] = []
  reached (n ∷ ns) = if is_old_enough (clock n) n then n ∷ reached ns else []

  abbrev pub unreached : List MrNode → List MrNode
  unreached [] = []
  unreached (n ∷ ns) = if is_old_enough (clock n) n then unreached ns else n ∷ ns

  abbrev pub is_protected : MrNode → Bool
  is_protected n = ssearch plist n.actual_node

  -- What is freed of a list, and what stays.
  abbrev pub gone : List MrNode → List MrNode
  gone ws = keep (λ n. not (is_protected n)) (reached ws)

  abbrev pub left : List MrNode → List MrNode
  left ws = keep is_protected (reached ws) ++ unreached ws

  pub gone-left : (ws : List MrNode) → length (gone ws) + length (left ws) ≡ length ws
  gone-left [] = omega arith
  gone-left (n ∷ ns) = ground (arith, gone-left ns)

  -- The loop over one limbo list frees exactly the reached nodes that are not protected.
  pub sweep-gone :
      (ws : List MrNode) (rcount : ℕ) (freed : List MrNode)
      → length ws ≤ rcount
      → rcount < 2 ^ 64
      → (let w = sweep clock plist ws rcount freed in
          (w.kept ≡ left ws)
          × (w.freed ≡ freed ++ gone ws)
          × (w.rcount + length (gone ws) ≡ rcount))
  unfolding sweep
  sweep-gone [] rcount freed le lt = (refl, sym (append-nil freed), omega arith)
  sweep-gone (n ∷ ns) rcount freed le lt = elim (Bool-cases (is_old_enough (clock n) n)) [
    | inr young ↦ rw young (refl, sym (append-nil freed), omega arith)
    | inl old ↦ elim (Bool-cases (ssearch plist n.actual_node)) [
      | inl hit ↦
          let (k, f, c) = sweep-gone ns rcount freed (omega arith) lt in
          rw old (rw hit (ap (λ xs. n ∷ xs) k, f, c))
      | inr miss ↦
          let one : (rcount + 2 ^ 64 - 1) % 2 ^ 64 ≡ rcount - 1 = omega arith in
          let (k, f, c) =
            sweep-gone ns ((rcount + 2 ^ 64 - 1) % 2 ^ 64) (freed ++ n ∷ []) (omega arith)
              (omega arith) in
          rw old (rw miss (k, f ∙ append_assoc freed (n ∷ []) (gone ns), omega arith))
    ]
  ]

-- The number of nodes that a thread has waiting.
abbrev pub waiting : ThreadData → ℕ
waiting t = length (t.limbo_list 0) + length (t.limbo_list 1) + length (t.limbo_list 2)

-- `rcount` is that number, and fits.
pub record IsCounted (t : ThreadData) : Type 0 where
  pub counted : t.rcount ≡ waiting t
  pub fits : waiting t < 2 ^ 64

-- A slot that is one of the three.
abbrev pub IsSlot : ℕ → Type 0
IsSlot j = j < 3

put-waiting :
    (t : ThreadData) (j : ℕ) (ws : List MrNode)
    → IsSlot j
    → waiting (record t { limbo_list = put t.limbo_list j ws }) + length (t.limbo_list j)
      ≡ waiting t + length ws
put-waiting t zero ws lt = omega arith
put-waiting t (suc zero) ws lt = omega arith
put-waiting t (suc (suc zero)) ws lt = omega arith
put-waiting t (suc (suc (suc j))) ws lt = absurd (omega arith)

length-le-waiting : (t : ThreadData) (j : ℕ) → IsSlot j → length (t.limbo_list j) ≤ waiting t
length-le-waiting t zero lt = omega arith
length-le-waiting t (suc zero) lt = omega arith
length-le-waiting t (suc (suc zero)) lt = omega arith
length-le-waiting t (suc (suc (suc j))) lt = absurd (omega arith)

-- No hazard pointer holds the node's address.
abbrev pub Unprotected : Hybrid → MrNode → Type 0
Unprotected s n = n.actual_node ≢ null → (j : ℕ) → j < hazard_count s → s.hp j ≢ n.actual_node

-- What a node is that a scan of `s` may free.
abbrev pub IsFreeable : (MrNode → TimeVal) → Hybrid → MrNode → Type 0
IsFreeable clock s n = (is_old_enough (clock n) n ≡ true) × Unprotected s n

collect-has :
    (hp : ℕ → Ptr) (n i : ℕ) (p : Ptr)
    → p ≢ null
    → has p (collect hp n i) ≡ false
    → (j : ℕ) → i ≤ j
    → j < i + n
    → hp j ≢ p
unfolding collect
collect-has hp zero i p ne out j lo hi e = absurd (omega arith)
collect-has hp (suc n) i p ne out j lo hi e = elim (Bool-cases (i == j)) [
  | inl here ↦ ground arith
  | inr later ↦ collect-has hp n (i + 1) p ne (ground arith) j (ground arith) (omega arith) e
]

gone-IsFreeable :
    (clock : MrNode → TimeVal) (s : Hybrid) (ws : List MrNode)
    → Each (IsFreeable clock s) (gone clock (collect s.hp (hazard_count s) 0) ws)
gone-IsFreeable clock s [] = tt
gone-IsFreeable clock s (n ∷ ns) =
    let plist = collect s.hp (hazard_count s) 0 in
    elim (Bool-cases (is_old_enough (clock n) n)) [
      | inr young ↦ rw young tt
      | inl old ↦ elim (Bool-cases (ssearch plist n.actual_node)) [
        | inl hit ↦ rw old (rw hit (gone-IsFreeable clock s ns))
        | inr miss ↦
            let safe : Unprotected s n = λ ne j lt.
              collect-has s.hp (hazard_count s) 0 n.actual_node ne miss j (omega arith)
                (omega arith) in
            rw old (rw miss ((old, safe), gone-IsFreeable clock s ns))
      ]
    ]

-- A step of the scan of `s` by `me`, from `a` to `b`, which frees `ws`.
record Sweeps (clock : MrNode → TimeVal) (s : Hybrid) (me : ℕ) (a b : Hybrid) (ws : List MrNode)
    : Type 0 where
  appended : b.freed ≡ a.freed ++ ws
  counts : IsCounted (b.td me)
  balanced : waiting (b.td me) + length ws ≡ waiting (a.td me)
  freeable : Each (IsFreeable clock s) ws

scan_slot-Sweeps :
    (clock : MrNode → TimeVal) (s a : Hybrid) (me j : ℕ)
    → IsSlot j
    → IsCounted (a.td me)
    → (ws : List MrNode) × Sweeps clock s me a
        (scan_slot clock (collect s.hp (hazard_count s) 0) a me j)
        ws
unfolding scan_slot
scan_slot-Sweeps clock s a me j slot c =
    let plist = collect s.hp (hazard_count s) 0 in
    let t = a.td me in
    let old = backwards (t.limbo_list j) in
    let le = length-le-waiting t j slot in
    let n = length-backwards (t.limbo_list j) in
    let total = c.counted in
    let few = c.fits in
    let (k, f, r) =
      sweep-gone clock plist old t.rcount a.freed (omega (arith, le, n, total))
        (omega (arith, total, few)) in
    let w = sweep clock plist old t.rcount a.freed in
    let m = length-backwards w.kept in
    let p = put-waiting t j (backwards w.kept) slot in
    let g = gone-left clock plist old in
    let kl = ap length k in
    let t1 : ThreadData = record t {
      limbo_list = put t.limbo_list j (backwards w.kept);
      rcount = w.rcount;
    } in
    let bal : waiting t1 + length (gone clock plist old) ≡ waiting t =
      omega (arith, p, m, kl, g, n) in
    let e = sym (put_self a.td me t1) in
    (
      gone clock plist old,
      record {
        appended = f;
        counts =
            subst IsCounted e
              (record { counted = omega (arith, bal, r, total); fits = omega (arith, bal, few) });
        balanced = subst (λ u. waiting u + length (gone clock plist old) ≡ waiting t) e bal;
        freeable = gone-IsFreeable clock s old;
      },
    )

Sweeps-trans :
    {clock : MrNode → TimeVal} {s a b c : Hybrid} {me : ℕ} {xs ys : List MrNode}
    → Sweeps clock s me a b xs
    → Sweeps clock s me b c ys
    → Sweeps clock s me a c (xs ++ ys)
Sweeps-trans {clock} {s} {a} {b} {c} {me} {xs} {ys} p q = record {
  appended = q.appended ∙ ap (λ l. l ++ ys) p.appended ∙ append_assoc a.freed xs ys;
  counts = q.counts;
  balanced = omega (arith, p.balanced, q.balanced, length-append xs ys);
  freeable = Each-append (IsFreeable clock s) xs ys p.freeable q.freeable;
}

-- When the thread's rcount is the number of nodes it has waiting, scan frees only nodes that are old
-- enough when it looks at them and that no hazard pointer holds, and rcount is again the number of
-- nodes waiting, which drops by the number of nodes freed.
pub scan-IsFreeable :
    (clock : MrNode → TimeVal) (s : Hybrid) (me : ℕ)
    → IsCounted (s.td me)
    → (ws : List MrNode) × ((scan clock s me).freed ≡ s.freed ++ ws)
      × Each (IsFreeable clock s) ws
      × IsCounted ((scan clock s me).td me)
      × (waiting ((scan clock s me).td me) + length ws ≡ waiting (s.td me))
unfolding scan
scan-IsFreeable clock s me c =
    let plist = collect s.hp (hazard_count s) 0 in
    let t = s.td me in
    let t0 : ThreadData = record t { scan_count = (t.scan_count + 1) % 2 ^ 64 } in
    let s0 = set_data s me t0 in
    let e0 = put_self s.td me t0 in
    let c0 : IsCounted (s0.td me) =
      subst IsCounted (sym e0) (record { counted = c.counted; fits = c.fits }) in
    let (w0, p0) = scan_slot-Sweeps clock s s0 me 0 (omega arith) c0 in
    let s1 = scan_slot clock plist s0 me 0 in
    let (w1, p1) = scan_slot-Sweeps clock s s1 me 1 (omega arith) p0.counts in
    let s2 = scan_slot clock plist s1 me 1 in
    let (w2, p2) = scan_slot-Sweeps clock s s2 me 2 (omega arith) p1.counts in
    let p = Sweeps-trans p0 (Sweeps-trans p1 p2) in
    let start = ap waiting e0 in
    (w0 ++ (w1 ++ w2), p.appended, p.freeable, p.counts, p.balanced ∙ start)
