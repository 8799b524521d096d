-- ===== src/LockIf/Tickets.antt =====
-- include/lock_if.h: mutual exclusion of the ticket lock.
use qsense.Prelude.{
  ℕ, zero, suc, ◌+◌, ◌%◌, ◌<◌, ◌≤◌, ◌≡◌, refl, ◌∙◌, ap, Bool, true, List, [], ◌∷◌, ◌++◌, arith,
  ◌==◌, Bool-cases, inl, inr, ◌⊎◌,
}
use qsense.LockIf.{TicketSt, ticket_init, ticket_take, ticket_served, ticket_trylock, ticket_unlock}

-- The lock, the tickets of the threads that spin, and the number of threads that hold the lock.
pub record Run : Type 0 where
  pub lock : TicketSt
  pub waiting : List ℕ
  pub inside : ℕ

abbrev pub count : List ℕ → ℕ
count [] = 0
count (t ∷ ts) = suc (count ts)

-- A step of some thread, where fewer than 2^32 threads use the lock.
pub data Step : Run → Run → Type 0 where
  take_ticket :
      (r : Run)
      → suc (r.inside + count r.waiting) < 4294967296
      → Step r (record r {
        lock = (ticket_take r.lock).1;
        waiting = r.waiting ++ ((ticket_take r.lock).0 ∷ []);
      })
  enter :
      (l : TicketSt) (before after : List ℕ) (t inside : ℕ)
      → ticket_served l t ≡ true
      → Step
          (record { lock = l; waiting = before ++ (t ∷ after); inside = inside })
          (record { lock = l; waiting = before ++ after; inside = suc inside })
  try_lock :
      (r : Run) (seen : TicketSt)
      → suc (r.inside + count r.waiting) < 4294967296
      → (ticket_trylock seen r.lock).0 ≡ true
      → Step r (record r { lock = (ticket_trylock seen r.lock).1; inside = suc r.inside })
  leave :
      (l : TicketSt) (waiting : List ℕ) (inside : ℕ)
      → Step
          (record { lock = l; waiting = waiting; inside = suc inside })
          (record { lock = ticket_unlock l; waiting = waiting; inside = inside })

-- `n` tickets in a row.
abbrev line : (from n : ℕ) → List ℕ
line from zero = []
line from (suc n) = from % 4294967296 ∷ line (suc from) n

line_cong : (a b n : ℕ) → a % 4294967296 ≡ b % 4294967296 → line a n ≡ line b n
line_cong a b zero e = refl
line_cong a b (suc n) e =
    rw e (ap (λ ts. b % 4294967296 ∷ ts) (line_cong (suc a) (suc b) n (omega (arith, e))))

line-append : (b n : ℕ) → line b n ++ ((b + n) % 4294967296 ∷ []) ≡ line b (suc n)
line-append b zero = ap (λ x. x ∷ []) (omega arith)
line-append b (suc n) =
    ap (λ ts. b % 4294967296 ∷ ts)
      (ap (λ x. line (suc b) n ++ (x ∷ [])) (omega arith) ∙ line-append (suc b) n)

count-line : (b n : ℕ) → count (line b n) ≡ n
count-line b zero = refl
count-line b (suc n) = ap suc (count-line (suc b) n)

count-append : (ts : List ℕ) (t : ℕ) → count (ts ++ (t ∷ [])) ≡ suc (count ts)
count-append [] t = refl
count-append (x ∷ ts) t = ap suc (count-append ts t)

abbrev first : List ℕ → ℕ
first [] = 0
first (t ∷ ts) = t

abbrev rest : List ℕ → List ℕ
rest [] = []
rest (t ∷ ts) = ts

-- A ticket in a row has its place.
placed :
    (before after : List ℕ) (t b n : ℕ)
    → before ++ (t ∷ after) ≡ line b n
    → (i : ℕ) × (i < n) × (t ≡ (b + i) % 4294967296)
placed [] after t b zero e = absurd (omega (arith, ap count e))
placed (x ∷ before) after t b zero e = absurd (omega (arith, ap count e))
placed [] after t b (suc n) e = (0, omega arith, ap first e ∙ omega arith)
placed (x ∷ before) after t b (suc n) e =
    let (i, lt, at) = placed before after t (suc b) n (ap rest e) in
    (suc i, omega (arith, lt), at ∙ omega arith)

-- The tickets that wait follow that of the holder, or begin with the one that is served.
pub record IsFair (r : Run) : Type 0 where
  pub one : r.inside ≤ 1
  pub small : (r.lock).curr < 4294967296
  pub few : r.inside + count r.waiting < 4294967296
  pub row : r.waiting ≡ line ((r.lock).curr + r.inside) (count r.waiting)
  pub next : (r.lock).ticket ≡ ((r.lock).curr + (r.inside + count r.waiting)) % 4294967296

take_ticket-IsFair :
    (r : Run)
    → suc (r.inside + count r.waiting) < 4294967296
    → IsFair r
    → IsFair (record r {
      lock = (ticket_take r.lock).1;
      waiting = r.waiting ++ ((ticket_take r.lock).0 ∷ []);
    })
unfolding ticket_take
take_ticket-IsFair r room f =
    let n = count r.waiting in
    let c = count-append r.waiting (r.lock).ticket in
    let h = f.next in
    record {
      one = f.one;
      small = f.small;
      few = rw c (omega (arith, room));
      row = rw c (
          ap (λ x. r.waiting ++ (x ∷ [])) (h ∙ omega arith)
          ∙ (ap (λ ts. ts ++ ((((r.lock).curr + r.inside) + n) % 4294967296 ∷ [])) f.row
              ∙ line-append ((r.lock).curr + r.inside) n));
      next = rw c (omega (arith, h));
    }

enter-IsFair :
    (l : TicketSt) (before after : List ℕ) (t inside : ℕ)
    → ticket_served l t ≡ true
    → IsFair (record { lock = l; waiting = before ++ (t ∷ after); inside = inside })
    → IsFair (record { lock = l; waiting = before ++ after; inside = suc inside })
enter-IsFair l [] after t zero served f =
    let row = f.row in
    let h = f.next in
    let few = f.few in
    record {
      one = omega arith;
      small = f.small;
      few = omega (arith, few);
      row = ap rest row ∙ line_cong (suc (l.curr + 0)) (l.curr + 1) (count after) (omega arith);
      next = omega (arith, h);
    }
enter-IsFair l (x ∷ before) after t zero served f =
    let (i, lt, at) =
      placed before after t (suc (l.curr + 0)) (count (before ++ (t ∷ after))) (ap rest (f.row)) in
    let few = f.few in
    let small = f.small in
    let here : t ≡ l.curr = ground (arith, served) in
    absurd (omega (arith, lt, at, few, small, here))
enter-IsFair l before after t (suc inside) served f =
    let n = count (before ++ (t ∷ after)) in
    let (i, lt, at) = placed before after t (l.curr + suc inside) n (f.row) in
    let few = f.few in
    let small = f.small in
    let one = f.one in
    let here : t ≡ l.curr = ground (arith, served) in
    absurd (omega (arith, lt, at, few, small, here, one))

trylock_got :
    (seen now : TicketSt)
    → (ticket_trylock seen now).0 ≡ true
    → (now.ticket ≡ now.curr)
      × ((ticket_trylock seen now).1.ticket ≡ (now.curr + 1) % 4294967296)
      × ((ticket_trylock seen now).1.curr ≡ now.curr)
unfolding ticket_trylock
trylock_got seen now got = (ground (arith, got), ground (arith, got), ground (arith, got))

line_empty : (a b n : ℕ) → n ≡ 0 → line a n ≡ line b n
line_empty a b zero e = refl
line_empty a b (suc n) e = absurd (omega (arith, e))

try_lock-IsFair :
    (r : Run) (seen : TicketSt)
    → suc (r.inside + count r.waiting) < 4294967296
    → (ticket_trylock seen r.lock).0 ≡ true
    → IsFair r
    → IsFair (record r { lock = (ticket_trylock seen r.lock).1; inside = suc r.inside })
try_lock-IsFair r seen room got f =
    let (free, taken, same) = trylock_got seen r.lock got in
    let h = f.next in
    let few = f.few in
    let small = f.small in
    let none_left : r.inside + count r.waiting ≡ 0 = omega (arith, free, h, few, small) in
    let l1 = (ticket_trylock seen r.lock).1 in
    record {
      one = omega (arith, none_left);
      small = rw same small;
      few = omega (arith, room);
      row =
          f.row
          ∙ line_empty ((r.lock).curr + r.inside) (l1.curr + suc r.inside) (count r.waiting)
              (omega (arith, none_left));
      next = omega (arith, taken, same, none_left);
    }

leave-IsFair :
    (l : TicketSt) (waiting : List ℕ) (inside : ℕ)
    → IsFair (record { lock = l; waiting = waiting; inside = suc inside })
    → IsFair (record { lock = ticket_unlock l; waiting = waiting; inside = inside })
unfolding ticket_unlock
leave-IsFair l waiting inside f =
    let one = f.one in
    let h = f.next in
    let few = f.few in
    record {
      one = omega (arith, one);
      small = omega arith;
      few = omega (arith, few);
      row =
          f.row
          ∙ line_cong (l.curr + suc inside) ((l.curr + 1) % 4294967296 + inside) (count waiting)
              (omega arith);
      next = omega (arith, h);
    }

pub data Reachable : Run → Type 0 where
  begin : Reachable (record { lock = ticket_init; waiting = []; inside = 0 })
  onward : (r r1 : Run) → Reachable r → Step r r1 → Reachable r1

step-IsFair : (r r1 : Run) → Step r r1 → IsFair r → IsFair r1
step-IsFair _ _ (take_ticket r room) f = take_ticket-IsFair r room f
step-IsFair _ _ (enter l before after t inside served) f =
    enter-IsFair l before after t inside served f
step-IsFair _ _ (try_lock r seen room got) f = try_lock-IsFair r seen room got f
step-IsFair _ _ (leave l waiting inside) f = leave-IsFair l waiting inside f

Reachable-IsFair : (r : Run) → Reachable r → IsFair r
unfolding ticket_init
Reachable-IsFair _ begin = record {
  one = omega arith;
  small = omega arith;
  few = omega arith;
  row = refl;
  next = refl;
}
Reachable-IsFair _ (onward r r1 h s) = step-IsFair r r1 s (Reachable-IsFair r h)

-- Whether the thread that has waited longest, if any waits, is served.
abbrev pub first_served : TicketSt → List ℕ → Bool
first_served l [] = true
first_served l (t ∷ ts) = ticket_served l t

row_served :
    (l : TicketSt) (ts : List ℕ) (inside : ℕ)
    → l.curr < 4294967296
    → inside ≡ 0
    → ts ≡ line (l.curr + inside) (count ts)
    → first_served l ts ≡ true
row_served l [] inside small none_in row = refl
row_served l (t ∷ ts) inside small none_in row =
    let at = ap first row in ground (arith, at, none_in, small)

-- From a lock as `ticket_init` leaves it, and while fewer than 2^32 threads use it, whatever the order in which
-- they take tickets, see them served, try the lock and let it go: no two threads hold the lock at a time, and
-- either one does or the thread that has waited longest, if any waits, is served.
pub Reachable-exclusive :
    (r : Run)
    → Reachable r
    → (r.inside ≤ 1) × ((r.inside ≡ 1) ⊎ (first_served r.lock r.waiting ≡ true))
Reachable-exclusive r h =
    let f = Reachable-IsFair r h in
    let one = f.one in
    (
      one,
      elim (Bool-cases (r.inside == 0)) [
        | inl empty ↦
            inr (row_served r.lock r.waiting r.inside f.small (ground (arith, empty)) f.row)
        | inr held ↦ inl (ground (arith, one, held))
      ],
    )
