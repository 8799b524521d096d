-- ===== src/Clh/Queue.antt =====
-- src/clh.c: mutual exclusion of the queue lock.
use qsense.Prelude.{
  ℕ, ◌+◌, ◌≤◌, ◌≡◌, refl, sym, ap, true, false, List, [], ◌∷◌, ◌++◌, ◌==◌, if◌then◌else◌, length,
  arith, Bool-cases, inl, inr, ◌⊎◌, put,
}
use qsense.DoubleLlist.{Ptr}
use qsense.Clh.{Clh, init_alloc_clh, swap_in, pred_done, clh_release}

-- The lock, the nodes and predecessors of the threads that wait and of those that hold the lock, and the nodes
-- of the others.
pub record Run : Type 0 where
  pub lock : Clh
  pub waiting : List (Ptr × Ptr)
  pub inside : List (Ptr × Ptr)
  pub idle : List Ptr

-- A step of some thread.
pub data Step : Run → Run → Type 0 where
  swap :
      (l : Clh) (waiting inside : List (Ptr × Ptr)) (before after : List Ptr) (n : Ptr)
      → Step
          (record { lock = l; waiting = waiting; inside = inside; idle = before ++ n ∷ after })
          (record {
            lock = (swap_in l n).1;
            waiting = waiting ++ (n, (swap_in l n).0) ∷ [];
            inside = inside;
            idle = before ++ after;
          })
  enter :
      (l : Clh) (before after inside : List (Ptr × Ptr)) (idle : List Ptr) (n p : Ptr)
      → pred_done l p ≡ true
      → Step
          (record { lock = l; waiting = before ++ (n, p) ∷ after; inside = inside; idle = idle })
          (record { lock = l; waiting = before ++ after; inside = (n, p) ∷ inside; idle = idle })
  leave :
      (l : Clh) (waiting inside : List (Ptr × Ptr)) (idle : List Ptr) (n p : Ptr)
      → Step
          (record { lock = l; waiting = waiting; inside = (n, p) ∷ inside; idle = idle })
          (record {
            lock = (clh_release l n p).1;
            waiting = waiting;
            inside = inside;
            idle = (clh_release l n p).0 ∷ idle;
          })

pub data Reachable (r0 : Run) : Run → Type 0 where
  start : Reachable r0 r0
  next : (r r1 : Run) → Reachable r0 r → Step r r1 → Reachable r0 r1

-- How often a node stands in a list.
abbrev one_if : Ptr → Ptr → ℕ
one_if x a = if a == x then 1 else 0

abbrev pub count : Ptr → List Ptr → ℕ
count x [] = 0
count x (a ∷ xs) = one_if x a + count x xs

abbrev count_nodes : Ptr → List (Ptr × Ptr) → ℕ
count_nodes x [] = 0
count_nodes x (w ∷ ws) = one_if x w.0 + count_nodes x ws

count-append : (x : Ptr) (xs ys : List Ptr) → count x (xs ++ ys) ≡ count x xs + count x ys
count-append x [] ys = omega arith
count-append x (a ∷ xs) ys = let ih = count-append x xs ys in omega (arith, ih)

count_nodes-append :
    (x : Ptr) (xs ys : List (Ptr × Ptr))
    → count_nodes x (xs ++ ys) ≡ count_nodes x xs + count_nodes x ys
count_nodes-append x [] ys = omega arith
count_nodes-append x (a ∷ xs) ys = let ih = count_nodes-append x xs ys in omega (arith, ih)

-- Each waiting thread waits for the one before, from `p` to the end of the queue.
abbrev IsQueue : (locked : Ptr → ℕ) → (p : Ptr) → List (Ptr × Ptr) → (end : Ptr) → Type 0
IsQueue locked p [] end = p ≡ end
IsQueue locked p ((n, q) ∷ ws) end = (q ≡ p) × (locked n ≡ 1) × IsQueue locked n ws end

IsQueue-put :
    (locked : Ptr → ℕ) (x v : ℕ) (p : Ptr) (ws : List (Ptr × Ptr)) (end : Ptr)
    → count_nodes x ws ≡ 0
    → IsQueue locked p ws end
    → IsQueue (put locked x v) p ws end
IsQueue-put locked x v p [] end zero_of h = h
IsQueue-put locked x v p ((n, q) ∷ ws) end zero_of (e, one, h) = elim (Bool-cases (n == x)) [
  | inl same ↦ absurd (ground (arith, rw same at zero_of))
  | inr other ↦
      let apart : (x == n) ≡ false = ground (arith, other) in
      (e, rw apart one, IsQueue-put locked x v n ws end (omega (arith, zero_of)) h)
]

IsQueue-append :
    (locked : Ptr → ℕ) (n p : Ptr) (ws : List (Ptr × Ptr)) (end : Ptr)
    → locked n ≡ 1
    → IsQueue locked p ws end
    → IsQueue locked p (ws ++ (n, end) ∷ []) n
IsQueue-append locked n p [] end one h = (sym h, one, refl)
IsQueue-append locked n p ((a, q) ∷ ws) end one (e, held, h) =
    (e, held, IsQueue-append locked n a ws end one h)

-- A thread that waits behind a locked node finds its predecessor locked.
IsQueue-locked :
    (locked : Ptr → ℕ) (n p q : Ptr) (before after : List (Ptr × Ptr)) (end : Ptr)
    → locked p ≡ 1
    → IsQueue locked p (before ++ (n, q) ∷ after) end
    → locked q ≡ 1
IsQueue-locked locked n p q [] after end one (e, held, h) = rw e one
IsQueue-locked locked n p q ((a, b) ∷ before) after end one (e, held, h) =
    IsQueue-locked locked n a q before after end held h

-- The lock is free, and the first thread that waits does so for `h`.
pub record IsFree (r : Run) : Type 0 where
  pub none_inside : r.inside ≡ []
  pub h : Ptr
  pub unlocked : r.lock.locked h ≡ 0
  pub queue : IsQueue r.lock.locked h r.waiting r.lock.the_lock
  pub once : (x : Ptr) → count x r.idle + (count_nodes x r.waiting + one_if x h) ≤ 1

-- A thread has the lock, with its node and its predecessor.
pub record IsTaken (r : Run) : Type 0 where
  pub n : Ptr
  pub p : Ptr
  pub one_inside : r.inside ≡ (n, p) ∷ []
  pub held : r.lock.locked n ≡ 1
  pub queue : IsQueue r.lock.locked n r.waiting r.lock.the_lock
  pub once : (x : Ptr) → count x r.idle + (count_nodes x r.waiting + (one_if x n + one_if x p)) ≤ 1

abbrev IsOrdered : Run → Type 0
IsOrdered r = IsFree r ⊎ IsTaken r

one_if_self : (x : Ptr) → one_if x x ≡ 1
one_if_self x = let e : (x == x) ≡ true = ground arith in rw e refl

apart : (a b : Ptr) → one_if b a ≡ 0 → (b == a) ≡ false
apart a b zero_of = elim (Bool-cases (b == a)) [
  | inr e ↦ e
  | inl e ↦
      let f : a ≡ b = ground (arith, e) in absurd (omega (arith, rw f at zero_of, one_if_self b))
]

swap-IsOrdered :
    (l : Clh) (waiting inside : List (Ptr × Ptr)) (before after : List Ptr) (n : Ptr)
    → IsOrdered
        (record { lock = l; waiting = waiting; inside = inside; idle = before ++ n ∷ after })
    → IsOrdered (record {
      lock = (swap_in l n).1;
      waiting = waiting ++ (n, l.the_lock) ∷ [];
      inside = inside;
      idle = before ++ after;
    })
swap-IsOrdered l waiting inside before after n (inl f) =
    let itself : (n == n) ≡ true = ground arith in
    let all = f.once n in
    let split = count-append n before (n ∷ after) in
    let other : (n == f.h) ≡ false = apart f.h n (omega (arith, all, split, one_if_self n)) in
    let unused : count_nodes n waiting ≡ 0 = omega (arith, all, split, one_if_self n) in
    let set : put l.locked n 1 n ≡ 1 = rw itself refl in
    inl (record {
      none_inside = f.none_inside;
      h = f.h;
      unlocked = rw other f.unlocked;
      queue =
          IsQueue-append (put l.locked n 1) n f.h waiting l.the_lock set
            (IsQueue-put l.locked n 1 f.h waiting l.the_lock unused f.queue);
      once = λ x. omega (
        arith,
        f.once x,
        count-append x before (n ∷ after),
        count-append x before after,
        count_nodes-append x waiting ((n, l.the_lock) ∷ []),
      );
    })
swap-IsOrdered l waiting inside before after n (inr k) =
    let itself : (n == n) ≡ true = ground arith in
    let all = k.once n in
    let split = count-append n before (n ∷ after) in
    let other : (n == k.n) ≡ false = apart k.n n (omega (arith, all, split, one_if_self n)) in
    let unused : count_nodes n waiting ≡ 0 = omega (arith, all, split, one_if_self n) in
    let set : put l.locked n 1 n ≡ 1 = rw itself refl in
    inr (record {
      n = k.n;
      p = k.p;
      one_inside = k.one_inside;
      held = rw other k.held;
      queue =
          IsQueue-append (put l.locked n 1) n k.n waiting l.the_lock set
            (IsQueue-put l.locked n 1 k.n waiting l.the_lock unused k.queue);
      once = λ x. omega (
        arith,
        k.once x,
        count-append x before (n ∷ after),
        count-append x before after,
        count_nodes-append x waiting ((n, l.the_lock) ∷ []),
      );
    })

enter-IsOrdered :
    (l : Clh) (before after inside : List (Ptr × Ptr)) (idle : List Ptr) (n p : Ptr)
    → pred_done l p ≡ true
    → IsOrdered
        (record { lock = l; waiting = before ++ (n, p) ∷ after; inside = inside; idle = idle })
    → IsOrdered
        (record { lock = l; waiting = before ++ after; inside = (n, p) ∷ inside; idle = idle })
enter-IsOrdered l before after inside idle n p done (inr k) =
    let locked = IsQueue-locked l.locked n k.n p before after l.the_lock k.held k.queue in
    absurd (ground (arith, done, locked))
enter-IsOrdered l [] after inside idle n p done (inl f) =
    let (e, held, rest) = f.queue in
    inr (record {
      n = n;
      p = p;
      one_inside = ap (λ ws. (n, p) ∷ ws) f.none_inside;
      held = held;
      queue = rest;
      once = λ x.
          (let once : count x idle + (one_if x n + count_nodes x after + one_if x p) ≤ 1 =
              rw e (f.once x) in
            omega (arith, once));
    })
enter-IsOrdered l ((a, q) ∷ before) after inside idle n p done (inl f) =
    let (e, held, rest) = f.queue in
    let locked = IsQueue-locked l.locked n a p before after l.the_lock held rest in
    absurd (ground (arith, done, locked))

abbrev first_of : List (Ptr × Ptr) → Ptr × Ptr
first_of [] = (0, 0)
first_of (w ∷ ws) = w

abbrev rest_of : List (Ptr × Ptr) → List (Ptr × Ptr)
rest_of [] = []
rest_of (w ∷ ws) = ws

leave-IsOrdered :
    (l : Clh) (waiting inside : List (Ptr × Ptr)) (idle : List Ptr) (n p : Ptr)
    → IsOrdered (record { lock = l; waiting = waiting; inside = (n, p) ∷ inside; idle = idle })
    → IsOrdered (record {
      lock = (clh_release l n p).1;
      waiting = waiting;
      inside = inside;
      idle = p ∷ idle;
    })
leave-IsOrdered l waiting inside idle n p (inl f) = absurd (omega (arith, ap length f.none_inside))
leave-IsOrdered l waiting inside idle n p (inr k) =
    let itself : (n == n) ≡ true = ground arith in
    let same_n : n ≡ k.n = ap (λ ws. (first_of ws).0) k.one_inside in
    let same_p : p ≡ k.p = ap (λ ws. (first_of ws).1) k.one_inside in
    let once : (x : Ptr) → count x idle + (count_nodes x waiting + (one_if x n + one_if x p)) ≤ 1 =
      λ x. rw same_n (rw same_p (k.once x)) in
    let unused : count_nodes n waiting ≡ 0 = omega (arith, once n, one_if_self n) in
    inl (record {
      none_inside = ap rest_of k.one_inside;
      h = n;
      unlocked = rw itself refl;
      queue = IsQueue-put l.locked n 0 n waiting l.the_lock unused (rw same_n k.queue);
      once = λ x. omega (arith, once x);
    })

Step-IsOrdered : (r r1 : Run) → Step r r1 → IsOrdered r → IsOrdered r1
Step-IsOrdered r r1 (swap l waiting inside before after n) h =
    swap-IsOrdered l waiting inside before after n h
Step-IsOrdered r r1 (enter l before after inside idle n p done) h =
    enter-IsOrdered l before after inside idle n p done h
Step-IsOrdered r r1 (leave l waiting inside idle n p) h =
    leave-IsOrdered l waiting inside idle n p h

-- From a lock that `init_alloc_clh` has set up, and threads with nodes that differ from each other and from that
-- of the lock, at most one thread holds the lock at a time.
pub Reachable-alone :
    (locked : Ptr → ℕ) (a_node : Ptr) (idle : List Ptr) (r : Run)
    → ((x : Ptr) → count x (a_node ∷ idle) ≤ 1)
    → Reachable
        (record { lock = init_alloc_clh locked a_node; waiting = []; inside = []; idle = idle })
        r
    → length r.inside ≤ 1
Reachable-alone locked a_node idle r once run = elim (ordered r run) [
  | inl f ↦ rw f.none_inside (omega arith)
  | inr k ↦ rw k.one_inside (omega arith)
]
  where
    ordered :
        (r : Run)
        → Reachable
            (record { lock = init_alloc_clh locked a_node; waiting = []; inside = []; idle = idle })
            r
        → IsOrdered r
    ordered r start =
        let itself : (a_node == a_node) ≡ true = ground arith in
        inl (record {
          none_inside = refl;
          h = a_node;
          unlocked = rw itself refl;
          queue = refl;
          once = λ x. (let h = once x in omega (arith, h));
        })
    ordered r (next r0 r1 run step) = Step-IsOrdered r0 r step (ordered r0 run)
