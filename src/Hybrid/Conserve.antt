-- ===== src/Hybrid/Conserve.antt =====
-- src/hybrid_optimized.c: no node that has been retired is lost or freed twice.
use qsense.Prelude.{
  ℕ, zero, suc, ◌+◌, ◌-◌, ◌%◌, ◌^◌, ◌<◌, ◌≡◌, refl, ◌∙◌, ap, ◌&&◌, List, [], ◌∷◌, ◌++◌, arith, ◌==◌,
  leb, backwards, occurrences, occurrences-append, occurrences-backwards, if◌then◌else◌, put,
  put_self, Bool-cases, inl, inr,
}
use qsense.DoubleLlist.{Ptr}
use qsense.Hybrid.State.{
  TimeVal, MrNode, ThreadData, Hybrid, hazard_count, scan_limit, set_data, n_epochs,
}
use qsense.Hybrid.Hazards.{is_old_enough, collect, ssearch, sweep, scan_slot, scan, free_node_later}

-- How often a node is wrapped in a list of wrappers.
abbrev pub wraps : Ptr → List MrNode → ℕ
wraps a ws = occurrences (λ (w : MrNode). w.actual_node) a ws

-- How often thread `me` has node `a` waiting.
abbrev pub awaits : ThreadData → Ptr → ℕ
awaits t a = wraps a (t.limbo_list 0) + wraps a (t.limbo_list 1) + wraps a (t.limbo_list 2)

-- How often node `a` has been retired by thread `me` or freed.
abbrev pub retired : ℕ → Hybrid → Ptr → ℕ
retired me s a = awaits (s.td me) a + wraps a s.freed

put-awaits :
    (t : ThreadData) (j : ℕ) (ws : List MrNode) (a : Ptr)
    → j < 3
    → awaits (record t { limbo_list = put t.limbo_list j ws }) a + wraps a (t.limbo_list j)
      ≡ awaits t a + wraps a ws
put-awaits t zero ws a lt = omega arith
put-awaits t (suc zero) ws a lt = omega arith
put-awaits t (suc (suc zero)) ws a lt = omega arith
put-awaits t (suc (suc (suc j))) ws a lt = absurd (omega arith)

sweep-wraps :
    (clock : MrNode → TimeVal) (plist : List Ptr) (ws : List MrNode) (rcount : ℕ)
    (freed : List MrNode) (a : Ptr)
    → (let w = sweep clock plist ws rcount freed in
        wraps a w.kept + wraps a w.freed ≡ wraps a ws + wraps a freed)
unfolding sweep
sweep-wraps clock plist [] rcount freed a = omega arith
sweep-wraps clock plist (n ∷ ns) rcount freed a = elim (Bool-cases (is_old_enough (clock n) n)) [
  | inr young ↦ rw young (omega arith)
  | inl old ↦ elim (Bool-cases (ssearch plist n.actual_node)) [
    | inl hit ↦ rw old (rw hit (ground (arith, sweep-wraps clock plist ns rcount freed a)))
    | inr miss ↦
        let rest =
          sweep-wraps clock plist ns ((rcount + 2 ^ 64 - 1) % 2 ^ 64) (freed ++ n ∷ []) a in
        let split = occurrences-append (λ (w : MrNode). w.actual_node) a freed (n ∷ []) in
        rw old (rw miss (ground (arith, rest, split)))
  ]
]

-- What a step leaves alone: the thread's epoch and the count of each node.
record Keeps (me : ℕ) (s t : Hybrid) : Type 0 where
  same_epoch : (t.td me).epoch ≡ (s.td me).epoch
  same_retired : (a : Ptr) → retired me t a ≡ retired me s a

scan_slot-Keeps :
    (clock : MrNode → TimeVal) (plist : List Ptr) (s : Hybrid) (me j : ℕ)
    → j < 3
    → Keeps me s (scan_slot clock plist s me j)
unfolding scan_slot
scan_slot-Keeps clock plist s me j lt =
    let t = s.td me in
    let w = sweep clock plist (backwards (t.limbo_list j)) t.rcount s.freed in
    let t1 : ThreadData = record t {
      limbo_list = put t.limbo_list j (backwards w.kept);
      rcount = w.rcount;
    } in
    let e = put_self s.td me t1 in
    record {
      same_epoch = ap (λ (u : ThreadData). u.epoch) e;
      same_retired = λ a.
          let f = λ (w : MrNode). w.actual_node in
          ap (λ u. awaits u a + wraps a w.freed) e
          ∙ omega (
            arith,
            put-awaits t j (backwards w.kept) a lt,
            occurrences-backwards f a w.kept,
            occurrences-backwards f a (t.limbo_list j),
            sweep-wraps clock plist (backwards (t.limbo_list j)) t.rcount s.freed a,
          );
    }

scan-Keeps : (clock : MrNode → TimeVal) (s : Hybrid) (me : ℕ) → Keeps me s (scan clock s me)
unfolding scan
scan-Keeps clock s me =
    let plist = collect s.hp (hazard_count s) 0 in
    let t = s.td me in
    let t0 : ThreadData = record t { scan_count = (t.scan_count + 1) % 2 ^ 64 } in
    let s0 = set_data s me t0 in
    let e0 = put_self s.td me t0 in
    let s1 = scan_slot clock plist s0 me 0 in
    let s2 = scan_slot clock plist s1 me 1 in
    let k0 = scan_slot-Keeps clock plist s0 me 0 (omega arith) in
    let k1 = scan_slot-Keeps clock plist s1 me 1 (omega arith) in
    let k2 = scan_slot-Keeps clock plist s2 me 2 (omega arith) in
    record {
      same_epoch =
          k2.same_epoch ∙ k1.same_epoch ∙ k0.same_epoch ∙ ap (λ (u : ThreadData). u.epoch) e0;
      same_retired = λ a.
          k2.same_retired a
          ∙ k1.same_retired a
          ∙ k0.same_retired a
          ∙ ap (λ u. awaits u a + wraps a s.freed) e0;
    }

-- scan neither loses a node nor frees one twice: each stands as often in the thread's limbo lists and
-- among the freed nodes as before.
scan-retired :
    (clock : MrNode → TimeVal) (s : Hybrid) (me : ℕ) (a : Ptr)
    → retired me (scan clock s me) a ≡ retired me s a
scan-retired clock s me a = (scan-Keeps clock s me).same_retired a

-- The thread's data with one more node on its current limbo list.
abbrev linked : ThreadData → (wrapper q : ℕ) → TimeVal → (calls : ℕ) → ThreadData
linked t wrapper q now calls =
    let n : MrNode = record { address = wrapper; actual_node = q; created = now } in
    record t {
      limbo_list = put t.limbo_list t.epoch (n ∷ t.limbo_list t.epoch);
      rcount = (t.rcount + 1) % 2 ^ 64;
      free_calls = calls;
    }

-- The two ways through free_node_later.
free_node_later-cases :
    (clock : MrNode → TimeVal) (s : Hybrid) (me wrapper q : ℕ) (now : TimeVal) (P : Hybrid → Type 0)
    → ((calls : ℕ) → P (set_data s me (linked (s.td me) wrapper q now calls)))
    → ((calls : ℕ) → P (scan clock (set_data s me (linked (s.td me) wrapper q now calls)) me))
    → P (free_node_later clock s me wrapper q now)
unfolding free_node_later
free_node_later-cases clock s me wrapper q now P plain scanned =
    let calls = ((s.td me).free_calls + 1) % 2 ^ 32 in
    elim (Bool-cases ((s.fallback_flag == 1) && leb (scan_limit s) calls)) [
      | inl due ↦ rw due (scanned 0)
      | inr not_due ↦ rw not_due (plain calls)
    ]

-- free_node_later keeps the thread's epoch.
pub free_node_later-epoch :
    (clock : MrNode → TimeVal) (s : Hybrid) (me wrapper q : ℕ) (now : TimeVal)
    → ((free_node_later clock s me wrapper q now).td me).epoch ≡ (s.td me).epoch
free_node_later-epoch clock s me wrapper q now =
    let e = λ (calls : ℕ).
      ap (λ (u : ThreadData). u.epoch) (put_self s.td me (linked (s.td me) wrapper q now calls)) in
    free_node_later-cases clock s me wrapper q now (λ t. (t.td me).epoch ≡ (s.td me).epoch) e
      (λ calls. (scan-Keeps clock _ me).same_epoch ∙ e calls)

scan-hp : (clock : MrNode → TimeVal) (s : Hybrid) (me : ℕ) → (scan clock s me).hp ≡ s.hp
unfolding scan scan_slot
scan-hp clock s me = refl

pub free_node_later-hp :
    (clock : MrNode → TimeVal) (s : Hybrid) (me wrapper q : ℕ) (now : TimeVal)
    → (free_node_later clock s me wrapper q now).hp ≡ s.hp
free_node_later-hp clock s me wrapper q now =
    free_node_later-cases clock s me wrapper q now (λ t. t.hp ≡ s.hp) (λ calls. refl)
      (λ calls. scan-hp clock (set_data s me (linked (s.td me) wrapper q now calls)) me)

linked-retired :
    (s : Hybrid) (me wrapper q : ℕ) (now : TimeVal) (calls : ℕ) (a : Ptr)
    → (s.td me).epoch < n_epochs
    → retired me (set_data s me (linked (s.td me) wrapper q now calls)) a
      ≡ (if a == q then suc (retired me s a) else retired me s a)
linked-retired s me wrapper q now calls a lt =
    let t = s.td me in
    let n : MrNode = record { address = wrapper; actual_node = q; created = now } in
    ap (λ u. awaits u a + wraps a s.freed) (put_self s.td me (linked t wrapper q now calls))
    ∙ ground (arith, put-awaits t t.epoch (n ∷ t.limbo_list t.epoch) a lt)

-- In a thread whose epoch is one of the three, free_node_later counts its node once more, and no other.
pub free_node_later-retired :
    (clock : MrNode → TimeVal) (s : Hybrid) (me wrapper q : ℕ) (now : TimeVal) (a : Ptr)
    → (s.td me).epoch < n_epochs
    → retired me (free_node_later clock s me wrapper q now) a
      ≡ (if a == q then suc (retired me s a) else retired me s a)
free_node_later-retired clock s me wrapper q now a lt =
    let once = λ (calls : ℕ). linked-retired s me wrapper q now calls a lt in
    free_node_later-cases clock s me wrapper q now
      (λ t. retired me t a ≡ (if a == q then suc (retired me s a) else retired me s a)) once
      (λ calls. (scan-Keeps clock _ me).same_retired a ∙ once calls)
