-- ===== src/Qsbr/Grace/Inv.antt =====
-- What holds in every reachable state of src/qsbr.c's threads, and that retiring and leaving keep it.
use qsense.Prelude.{
  ℕ, ◌+◌, ◌-◌, ◌%◌, ◌<◌, ◌≤◌, ◌≡◌, ◌≢◌, refl, ◌&&◌, ◌∷◌, arith, ◌==◌, Bool-cases, inl, inr, ◌⊎◌,
  if◌then◌else◌, Each, Each-map,
}
use qsense.Qsbr.{MrNode, Qsbr, n_epochs, mr_init_global, link_wrapper}
use qsense.Qsbr.Grace.{System, start, retire, leave}

-- How many epochs the global epoch is ahead of `e`, modulo three.
abbrev pub ahead : Qsbr → ℕ → ℕ
ahead s e = (s.global_epoch + 3 - e) % 3

-- What is known of the time at which a node was retired, by the slot that it waits in.
pub record Waits (s : System) (i slot : ℕ) (w : MrNode) : Type 0 where
  pub past : w.created < s.now
  pub two_ahead : ahead s.st slot ≡ 2 → w.created < s.began
  pub due : ahead s.st slot ≡ 0 → (s.st.qd i).epoch ≢ s.st.global_epoch → w.created < s.began_before

pub record Inv (s : System) : Type 0 where
  pub in_range : s.st.global_epoch < 3
  pub epochs : (i : ℕ) → (s.st.qd i).epoch < 3
  pub ordered : (s.began_before ≤ s.began) × (s.began < s.now)
  pub near :
      (i : ℕ) → i < s.st.nthreads → (s.st.qd i).in_critical ≡ 1 → ahead s.st (s.st.qd i).epoch < 2
  pub level_quiet :
      (i : ℕ)
      → i < s.st.nthreads
      → (s.st.qd i).in_critical ≡ 1
      → (s.st.qd i).epoch ≡ s.st.global_epoch
      → s.began ≤ s.quiet i
  pub behind_quiet :
      (i : ℕ) → i < s.st.nthreads → (s.st.qd i).in_critical ≡ 1 → s.began_before ≤ s.quiet i
  pub waiting : (i slot : ℕ) → slot < 3 → Each (Waits s i slot) ((s.st.qd i).limbo_list slot)

pub start-Inv : (n : ℕ) → Inv (start n)
unfolding mr_init_global
start-Inv n = record {
  in_range = omega arith;
  epochs = λ i. omega arith;
  ordered = omega arith;
  near = λ i lt c. omega arith;
  level_quiet = λ i lt c e. omega arith;
  behind_quiet = λ i lt c. omega arith;
  waiting = λ i slot lt. tt;
}

-- A step that leaves the epochs alone keeps what is known of a waiting node.
pub Waits-keep :
    (s t : System) (i slot : ℕ) (w : MrNode)
    → s.now ≤ t.now
    → t.st.global_epoch ≡ s.st.global_epoch
    → t.began ≡ s.began
    → t.began_before ≡ s.began_before
    → ((t.st.qd i).epoch ≡ (s.st.qd i).epoch) ⊎ ((t.st.qd i).epoch ≡ t.st.global_epoch)
    → Waits s i slot w
    → Waits t i slot w
Waits-keep s t i slot w later g b bb e k = record {
  past = omega (arith, k.past);
  two_ahead = λ a. omega (arith, b, k.two_ahead (omega (arith, g)));
  due = λ a ne. ground (arith, k.due, g, bb);
}

pub leave-Inv : (s : System) (me : ℕ) → Inv s → Inv (leave s me)
leave-Inv s me inv = record {
  in_range = inv.in_range;
  epochs = λ i. ground (arith, inv.epochs i);
  ordered = omega arith;
  near = λ i lt c. ground (arith, inv.near i);
  level_quiet = λ i lt c e. ground (arith, inv.level_quiet i);
  behind_quiet = λ i lt c. ground (arith, inv.behind_quiet i);
  waiting = λ i slot lt.
      let same_list : ((leave s me).st.qd i).limbo_list ≡ (s.st.qd i).limbo_list = ground arith in
      let same_epoch : ((leave s me).st.qd i).epoch ≡ (s.st.qd i).epoch = ground arith in
      rw same_list (
        Each-map ((s.st.qd i).limbo_list slot)
          (λ w. Waits-keep s (leave s me) i slot w (omega arith) refl refl refl (inl same_epoch))
          (inv.waiting i slot lt));
}

module _ (s : System) (me q address : ℕ) (lt : me < s.st.nthreads)
    (active : (s.st.qd me).in_critical ≡ 1) (inv : Inv s) where
  abbrev fresh : MrNode
  fresh = record { address = address; actual_node = q; created = s.now }

  fresh-Waits :
      (i slot : ℕ) → me ≡ i → (s.st.qd me).epoch ≡ slot → Waits (retire s me q address) i slot fresh
  unfolding link_wrapper
  fresh-Waits i slot here e = record {
    past = omega arith;
    two_ahead = λ a. absurd (omega (arith, inv.near me lt active));
    due = λ a ne. ground (arith, inv.epochs me, inv.in_range);
  }

  retire-list :
      (i slot : ℕ)
      → ((retire s me q address).st.qd i).limbo_list slot ≡ (
          if (me == i) && ((s.st.qd me).epoch == slot)
          then fresh ∷ (s.st.qd i).limbo_list slot
          else (s.st.qd i).limbo_list slot)
  unfolding link_wrapper
  retire-list i slot = ground arith

  retire-waiting :
      (i slot : ℕ)
      → slot < 3
      → Each
          (Waits (retire s me q address) i slot)
          (((retire s me q address).st.qd i).limbo_list slot)
  unfolding link_wrapper
  retire-waiting i slot small =
      let same_epoch : ((retire s me q address).st.qd i).epoch ≡ (s.st.qd i).epoch = ground arith in
      let old =
        Each-map ((s.st.qd i).limbo_list slot)
          (λ w.
            Waits-keep s (retire s me q address) i slot w (omega arith) refl refl refl
              (inl same_epoch))
          (inv.waiting i slot small) in
      elim (Bool-cases ((me == i) && ((s.st.qd me).epoch == slot))) [
        | inl new ↦
            rw (retire-list i slot, new) (fresh-Waits i slot (ground arith) (ground arith), old)
        | inr other ↦ rw (retire-list i slot, other) old
      ]

  pub retire-Inv : Inv (retire s me q address)
  unfolding link_wrapper
  retire-Inv = record {
    in_range = inv.in_range;
    epochs = λ i. ground (arith, inv.epochs i);
    ordered = omega arith;
    near = λ i lt c. ground (arith, inv.near i);
    level_quiet = λ i lt c e. ground (arith, inv.level_quiet i);
    behind_quiet = λ i lt c. ground (arith, inv.behind_quiet i);
    waiting = retire-waiting;
  }

-- When the global epoch moves on, a node gains what its slot is ahead by.
pub Waits-advance :
    (s t : System) (i slot : ℕ) (w : MrNode)
    → s.st.global_epoch < 3
    → slot < 3
    → t.now ≡ s.now + 1
    → t.st.global_epoch ≡ (s.st.global_epoch + 1) % n_epochs
    → t.began ≡ s.now
    → t.began_before ≡ s.began
    → Waits s i slot w
    → Waits t i slot w
Waits-advance s t i slot w small slots later g b bb k = record {
  past = omega (arith, k.past);
  two_ahead = λ a. omega (arith, b, k.past);
  due = λ a ne. omega (arith, bb, k.two_ahead (omega (arith, g)));
}
