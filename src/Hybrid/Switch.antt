-- ===== src/Hybrid/Switch.antt =====
-- src/hybrid_optimized.c: when the fallback to hazard pointers begins and when it ends.
use qsense.Prelude.{
  ℕ, zero, suc, ◌+◌, ◌%◌, ◌^◌, ◌≡◌, refl, ◌∙◌, false, ◌&&◌, not, arith, ◌==◌, leb, Bool-cases,
  and_false, inl, inr, if◌then◌else◌, put,
}
use qsense.LockIf.{ticket_trylock}
use qsense.Hybrid.State.{TimeVal, MrNode, Hybrid, switch_threshold, scan_limit, set_data}
use qsense.Hybrid.Quiescence.{
  held_back, update_epoch, set_critical, process_callbacks, enter_epoch, quiescent_state,
  quiesce_times,
}
use qsense.Hybrid.Hazards.{scan_slot, scan, free_node_later}
use qsense.Hybrid.Modes.{allocate_fail, all_threads_present, manage_hybrid_state, set_last_flag}

-- Two states with the same fallback flag, presence flags and threads.
pub record SameMode (s t : Hybrid) : Type 0 where
  pub same_flag : t.fallback_flag ≡ s.fallback_flag
  pub same_presence : t.is_present_vect ≡ s.is_present_vect
  pub same_size : t.nthreads ≡ s.nthreads

SameMode-refl : (s : Hybrid) → SameMode s s
SameMode-refl s = record { same_flag = refl; same_presence = refl; same_size = refl }

SameMode-trans : (s t u : Hybrid) → SameMode s t → SameMode t u → SameMode s u
SameMode-trans s t u p q = record {
  same_flag = q.same_flag ∙ p.same_flag;
  same_presence = q.same_presence ∙ p.same_presence;
  same_size = q.same_size ∙ p.same_size;
}

update_epoch-SameMode : (s : Hybrid) (me : ℕ) → SameMode s (update_epoch s me).1
unfolding update_epoch
update_epoch-SameMode s me = elim (Bool-cases (ticket_trylock s.update_lock s.update_lock).0) [
  | inr held ↦ rw held (record { same_flag = refl; same_presence = refl; same_size = refl })
  | inl got ↦ elim (Bool-cases (held_back s.td s.global_epoch me s.nthreads 0)) [
    | inl late ↦
        rw got (rw late (record { same_flag = refl; same_presence = refl; same_size = refl }))
    | inr fine ↦
        rw got (rw fine (record { same_flag = refl; same_presence = refl; same_size = refl }))
  ]
]

enter_epoch-SameMode : (s : Hybrid) (me epoch : ℕ) → SameMode s (enter_epoch s me epoch)
unfolding enter_epoch process_callbacks
enter_epoch-SameMode s me epoch = record {
  same_flag = refl;
  same_presence = refl;
  same_size = refl;
}

pub quiescent_state-SameMode : (s : Hybrid) (me : ℕ) → SameMode s (quiescent_state s me)
unfolding quiescent_state
quiescent_state-SameMode s me =
    let s0 = set_critical s me 0 in
    let s1 = (update_epoch s0 me).1 in
    let s2 = set_critical s1 me (s.td me).in_critical in
    let u = update_epoch-SameMode s0 me in
    let kept : SameMode s s2 = record {
      same_flag = u.same_flag;
      same_presence = u.same_presence;
      same_size = u.same_size;
    } in
    elim (Bool-cases ((s.td me).epoch == s.global_epoch)) [
      | inr new ↦ rw new (enter_epoch-SameMode s me s.global_epoch)
      | inl seen ↦ elim (Bool-cases (update_epoch s0 me).0) [
        | inr failed ↦ rw seen (rw failed kept)
        | inl moved ↦ elim (Bool-cases ((s2.td me).epoch == s2.global_epoch)) [
          | inl still ↦ rw seen (rw moved (rw still kept))
          | inr next ↦ rw seen (
              rw moved
                (rw next (SameMode-trans s s2 _ kept (enter_epoch-SameMode s2 me s2.global_epoch))))
        ]
      ]
    ]

quiesce_times-SameMode : (n : ℕ) (s : Hybrid) (me : ℕ) → SameMode s (quiesce_times n s me)
unfolding quiesce_times
quiesce_times-SameMode zero s me = SameMode-refl s
quiesce_times-SameMode (suc n) s me =
    SameMode-trans s (quiescent_state s me) (quiesce_times n (quiescent_state s me) me)
      (quiescent_state-SameMode s me) (quiesce_times-SameMode n (quiescent_state s me) me)

pub scan-SameMode : (clock : MrNode → TimeVal) (s : Hybrid) (me : ℕ) → SameMode s (scan clock s me)
unfolding scan scan_slot
scan-SameMode clock s me = record { same_flag = refl; same_presence = refl; same_size = refl }

-- The state in which manage_hybrid_state looks at the presence flags.
abbrev pub arrived : Hybrid → ℕ → Hybrid
arrived s me = record s { is_present_vect = put s.is_present_vect me 1 }

-- What manage_hybrid_state leaves in the flags: the caller is present, and the fallback ends when
-- it is on and all threads are present; otherwise the flag stays.
pub record Managed (s : Hybrid) (me : ℕ) (t : Hybrid) : Type 0 where
  pub flag : t.fallback_flag ≡ (
      if (s.fallback_flag == 1) && all_threads_present (arrived s me) then 0 else s.fallback_flag)
  pub presence : t.is_present_vect ≡ put s.is_present_vect me 1
  pub size : t.nthreads ≡ s.nthreads

pub manage_hybrid_state-Managed : (s : Hybrid) (me : ℕ) → Managed s me (manage_hybrid_state s me)
unfolding manage_hybrid_state
manage_hybrid_state-Managed s me =
    let a = arrived s me in
    let back = set_last_flag (record a { fallback_flag = 0 }) me 0 in
    let hundred = quiesce_times-SameMode 100 a me in
    let ten = quiesce_times-SameMode 10 back me in
    let once = quiescent_state-SameMode a me in
    elim (Bool-cases (s.fallback_flag == 0)) [
      | inl off ↦
          let still : (s.fallback_flag == 1) ≡ false = ground arith in
          elim (Bool-cases ((s.td me).last_flag == 1)) [
            | inl was ↦ rw was (
                rw off (record {
                  flag = rw still hundred.same_flag;
                  presence = hundred.same_presence;
                  size = hundred.same_size;
                }))
            | inr not_was ↦ rw not_was (
                rw off (record {
                  flag = rw still once.same_flag;
                  presence = once.same_presence;
                  size = once.same_size;
                }))
          ]
      | inr on ↦
          let skip : (((s.td me).last_flag == 1) && (s.fallback_flag == 0)) ≡ false =
            rw on (and_false _) in
          elim (Bool-cases (s.fallback_flag == 1)) [
            | inr neither ↦ rw skip (
                rw on
                  (rw neither (record { flag = rw neither refl; presence = refl; size = refl })))
            | inl fallback ↦ elim (Bool-cases (all_threads_present a)) [
              | inr some_absent ↦ rw skip (
                  rw on (
                    rw fallback (
                      rw some_absent (record {
                        flag = rw fallback (rw some_absent refl);
                        presence = refl;
                        size = refl;
                      }))))
              | inl everyone ↦ rw skip (
                  rw on (
                    rw fallback (
                      rw everyone (record {
                        flag = rw fallback (rw everyone ten.same_flag);
                        presence = ten.same_presence;
                        size = ten.same_size;
                      }))))
            ]
          ]
    ]

-- What allocate_fail leaves in the flags.
pub record Failed (s : Hybrid) (me trials : ℕ) (t : Hybrid) : Type 0 where
  pub flag : t.fallback_flag ≡ (
      if not ((s.td me).last_flag == 1) && ((s.fallback_flag == 0) && leb switch_threshold trials)
      then 1
      else s.fallback_flag)
  pub presence : t.is_present_vect ≡ s.is_present_vect
  pub size : t.nthreads ≡ s.nthreads

pub allocate_fail-Failed :
    (clock : MrNode → TimeVal) (s : Hybrid) (me trials : ℕ)
    → Failed s me trials (allocate_fail clock s me trials)
unfolding allocate_fail
allocate_fail-Failed clock s me trials =
    let t = s.td me in
    let a =
      set_data s me (record t { allocate_fail_count = (t.allocate_fail_count + 1) % 2 ^ 64 }) in
    let hundred = quiesce_times-SameMode 100 a me in
    let once = quiescent_state-SameMode a me in
    let scanned = scan-SameMode clock a me in
    let turned = set_last_flag (record a { fallback_flag = 1 }) me 1 in
    let switched = scan-SameMode clock turned me in
    elim (Bool-cases (s.fallback_flag == 0)) [
      | inr on ↦
          let skip : ((t.last_flag == 1) && (s.fallback_flag == 0)) ≡ false = rw on (and_false _) in
          let stays : (not (t.last_flag == 1)
                && ((s.fallback_flag == 0) && leb switch_threshold trials))
              ≡ false =
            rw on (and_false _) in
          elim (Bool-cases (s.fallback_flag == 1)) [
            | inl fallback ↦ rw skip (
                rw fallback (record {
                  flag = rw stays scanned.same_flag;
                  presence = scanned.same_presence;
                  size = scanned.same_size;
                }))
            | inr neither ↦ rw skip (
                rw neither (
                  rw on (record {
                    flag = rw on (rw (and_false (not (t.last_flag == 1))) once.same_flag);
                    presence = once.same_presence;
                    size = once.same_size;
                  })))
          ]
      | inl off ↦
          let not_on : (s.fallback_flag == 1) ≡ false = ground arith in
          elim (Bool-cases (t.last_flag == 1)) [
            | inl was ↦ rw was (
                rw off (record {
                  flag = rw was hundred.same_flag;
                  presence = hundred.same_presence;
                  size = hundred.same_size;
                }))
            | inr not_was ↦ elim (Bool-cases (leb switch_threshold trials)) [
              | inl many ↦ rw not_was (
                  rw not_on (
                    rw off (
                      rw many (record {
                        flag = rw not_was (rw off (rw many switched.same_flag));
                        presence = switched.same_presence;
                        size = switched.same_size;
                      }))))
              | inr few ↦ rw not_was (
                  rw not_on (
                    rw off (
                      rw few (record {
                        flag = rw not_was (rw off (rw few once.same_flag));
                        presence = once.same_presence;
                        size = once.same_size;
                      }))))
            ]
          ]
    ]

pub free_node_later-SameMode :
    (clock : MrNode → TimeVal) (s : Hybrid) (me wrapper q : ℕ) (now : TimeVal)
    → SameMode s (free_node_later clock s me wrapper q now)
unfolding free_node_later
free_node_later-SameMode clock s me wrapper q now =
    let t = s.td me in
    let calls = (t.free_calls + 1) % 2 ^ 32 in
    elim (Bool-cases ((s.fallback_flag == 1) && leb (scan_limit s) calls)) [
      | inl due ↦ rw due (
          SameMode-trans s _ _ (record { same_flag = refl; same_presence = refl; same_size = refl })
            (scan-SameMode clock _ me))
      | inr not_due ↦
          rw not_due (record { same_flag = refl; same_presence = refl; same_size = refl })
    ]
