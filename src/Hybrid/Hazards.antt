-- ===== src/Hybrid/Hazards.antt =====
-- src/hybrid_optimized.c: the scan, which frees the old nodes that no hazard pointer protects.
use qsense.Prelude.{
  ℕ, zero, suc, ◌+◌, ◌-◌, ◌*◌, ◌/◌, ◌%◌, ◌^◌, Bool, ◌&&◌, List, [], ◌∷◌, ◌++◌, ◌==◌, ltb, leb,
  if◌then◌else◌, put, has, backwards,
}
use qsense.DoubleLlist.{Ptr, null}
use qsense.Deque.{add_to_head}
use qsense.Hybrid.State.{
  TimeVal, MrNode, ThreadData, Hybrid, age_limit, k, hazard_count, scan_limit, set_data,
}

-- The difference of two `long`s, as a `uint64_t`.
abbrev pub sub64 : ℕ → ℕ → ℕ
sub64 a b = (a + 2 ^ 64 - b) % 2 ^ 64

-- (now.tv_usec - created.tv_usec) / 1000, rounded towards zero, as a `uint64_t`.
abbrev pub usec_part : (now created : ℕ) → ℕ
usec_part now created =
    if leb created now then (now - created) / 1000 else sub64 0 ((created - now) / 1000)

unfoldable pub is_old_enough : TimeVal → MrNode → Bool
is_old_enough now n =
    let msec = (sub64 now.tv_sec n.created.tv_sec * 1000) % 2 ^ 64 in
    leb age_limit ((msec + usec_part now.tv_usec n.created.tv_usec) % 2 ^ 64)

-- Stage 1 of `scan`: the hazard pointers `i`, …, `i + n - 1` that are not null.
unfoldable pub collect : (ℕ → Ptr) → (n i : ℕ) → List Ptr
collect hp zero i = []
collect hp (suc n) i = if hp i == null then collect hp n (i + 1) else hp i ∷ collect hp n (i + 1)

abbrev pub ssearch : List Ptr → Ptr → Bool
ssearch plist key = has key plist

-- What the loop over one limbo list changes; `kept` stands tail first.
pub record Sweep : Type 0 where
  pub kept : List MrNode
  pub rcount : ℕ
  pub freed : List MrNode

-- The inner loop of `scan`, over a limbo list from its tail. `clock n` is the time that
-- `is_old_enough` reads when it looks at node `n`.
unfoldable pub sweep : (MrNode → TimeVal) → List Ptr → List MrNode → ℕ → List MrNode → Sweep
sweep clock plist [] rcount freed = record { kept = []; rcount = rcount; freed = freed }
sweep clock plist (cur ∷ rest) rcount freed =
    let stays = sweep clock plist rest rcount freed in
    let goes = sweep clock plist rest ((rcount + 2 ^ 64 - 1) % 2 ^ 64) (freed ++ cur ∷ []) in
    if is_old_enough (clock cur) cur
    then (if ssearch plist cur.actual_node then record stays { kept = cur ∷ stays.kept } else goes)
    else record { kept = cur ∷ rest; rcount = rcount; freed = freed }

-- The body of the outer loop of `scan`, for the limbo list `j`.
unfoldable pub scan_slot : (MrNode → TimeVal) → List Ptr → Hybrid → (me j : ℕ) → Hybrid
scan_slot clock plist s me j =
    let t = s.td me in
    let w = sweep clock plist (backwards (t.limbo_list j)) t.rcount s.freed in
    record s {
      freed = w.freed;
      td =
          put s.td me
            (record t { limbo_list = put t.limbo_list j (backwards w.kept); rcount = w.rcount });
    }

unfoldable pub scan : (MrNode → TimeVal) → Hybrid → ℕ → Hybrid
scan clock s me =
    let t = s.td me in
    let s0 = set_data s me (record t { scan_count = (t.scan_count + 1) % 2 ^ 64 }) in
    let plist = collect s.hp (hazard_count s) 0 in
    scan_slot clock plist (scan_slot clock plist (scan_slot clock plist s0 me 0) me 1) me 2

-- `free_node_later(q)`, with the time of the call and with the wrapper that `ssalloc_alloc` returned,
-- the address of a block: the code writes through it without a test, and would fault on NULL;
-- `clock` is for the scan.
unfoldable pub free_node_later : (MrNode → TimeVal) → Hybrid → (me wrapper q : ℕ) → TimeVal → Hybrid
free_node_later clock s me wrapper q now =
    let t = s.td me in
    let n : MrNode = record { address = wrapper; actual_node = q; created = now } in
    let calls = (t.free_calls + 1) % 2 ^ 32 in
    let t1 : ThreadData = record t {
      limbo_list = put t.limbo_list t.epoch (add_to_head n (t.limbo_list t.epoch));
      rcount = (t.rcount + 1) % 2 ^ 64;
      free_calls = calls;
    } in
    if (s.fallback_flag == 1) && leb (scan_limit s) calls
    then scan clock (set_data s me (record t1 { free_calls = 0 })) me
    else set_data s me t1

unfoldable pub assign_hp : Hybrid → (me target hp_index : ℕ) → Hybrid
assign_hp s me target hp_index = record s { hp = put s.hp (k * me + hp_index) target }

-- The loop of `mr_thread_exit`, with the retries that are left; `yield` is what the others do at the
-- `sched_yield` of each round, `clocks` gives the readings of each scan.
unfoldable pub exit_loop : ℕ → (ℕ → MrNode → TimeVal) → (Hybrid → Hybrid) → Hybrid → ℕ → Hybrid
exit_loop zero clocks yield s me = s
exit_loop (suc left) clocks yield s me =
    let rest = exit_loop left clocks yield (yield (scan (clocks left) s me)) me in
    if ltb 0 (s.td me).rcount then rest else s

unfoldable pub mr_thread_exit : (ℕ → MrNode → TimeVal) → (Hybrid → Hybrid) → Hybrid → ℕ → Hybrid
mr_thread_exit clocks yield s me =
    exit_loop (100 * s.nthreads) clocks yield
      (record s { hp = λ j. if leb (k * me) j && ltb j (k * me + k) then null else s.hp j }) me
