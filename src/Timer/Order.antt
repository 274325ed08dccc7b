-- ===== src/Timer/Order.antt =====
-- The armed timeouts are ordered by deadline, and no node is in use twice.
use yaos.Prelude.{
  ℕ, zero, suc, ◌+◌, ◌≤◌, ◌<◌, ◌≡◌, refl, inl, inr, Bool, List, [], ◌∷◌, ◌++◌, arith, Bool-cases,
  ltb, leb, ◌==◌, count_if, All, All-map,
}
use yaos.Timer.{Timeout, Timers, buffer, insert_after, insert, collect, init_timer, nr_timer_buf}

abbrev pub Sorted : List Timeout → Type 0
Sorted [] = Unit
Sorted (h ∷ rest) = All (λ (x : Timeout). h.deadline ≤ x.deadline) rest × Sorted rest

-- how many timeouts of the list pass a test
abbrev pub count : (Timeout → Bool) → List Timeout → ℕ
count f [] = 0
count f (x ∷ rest) = count_if (f x) + count f rest

abbrev pub is_node : ℕ → Timeout → Bool
is_node n p = p.node == n

pub record IsTimers {W : Type 0} (s : Timers W) : Type 0 where
  pub sorted : Sorted s.ptimer
  pub once : (n : ℕ) → count (is_node n) s.pfree + count (is_node n) s.ptimer ≤ 1

pub count-append :
    (f : Timeout → Bool) (xs ys : List Timeout) → count f (xs ++ ys) ≡ count f xs + count f ys
count-append f [] ys = omega arith
count-append f (x ∷ xs) ys = omega (arith, count-append f xs ys)

count-insert_after :
    (f : Timeout → Bool) (p : Timeout) (l : List Timeout)
    → count f (insert_after p l) ≡ count_if (f p) + count f l
unfolding insert_after
count-insert_after f p [] = refl
count-insert_after f p (n ∷ rest) = elim (Bool-cases (ltb n.deadline p.deadline)) [
  | inl on ↦ rw on (omega (arith, count-insert_after f p rest))
  | inr here ↦ rw here refl
]

pub count-insert :
    (f : Timeout → Bool) (p : Timeout) (l : List Timeout)
    → count f (insert p l) ≡ count_if (f p) + count f l
unfolding insert
count-insert f p [] = refl
count-insert f p (n ∷ rest) = elim (Bool-cases (ltb p.deadline n.deadline)) [
  | inl front ↦ rw front refl
  | inr on ↦ rw on (omega (arith, count-insert_after f p rest))
]

All-insert_after :
    (P : Timeout → Type 0) (p : Timeout) (l : List Timeout)
    → P p
    → All P l
    → All P (insert_after p l)
unfolding insert_after
All-insert_after P p [] hp hl = (hp, tt)
All-insert_after P p (n ∷ rest) hp hl = elim (Bool-cases (ltb n.deadline p.deadline)) [
  | inl on ↦ rw on (hl.0, All-insert_after P p rest hp hl.1)
  | inr here ↦ rw here (hp, hl)
]

insert_after-Sorted : (p : Timeout) (l : List Timeout) → Sorted l → Sorted (insert_after p l)
unfolding insert_after
insert_after-Sorted p [] ord = (tt, tt)
insert_after-Sorted p (n ∷ rest) ord = elim (Bool-cases (ltb n.deadline p.deadline)) [
  | inl on ↦
      rw on (All-insert_after _ p rest (ground arith) ord.0, insert_after-Sorted p rest ord.1)
  | inr here ↦
      let before : p.deadline ≤ n.deadline = ground arith in
      rw here ((before, All-map (λ x le. omega arith) rest ord.0), ord)
]

pub insert-Sorted : (p : Timeout) (l : List Timeout) → Sorted l → Sorted (insert p l)
unfolding insert
insert-Sorted p [] ord = (tt, tt)
insert-Sorted p (n ∷ rest) ord = elim (Bool-cases (ltb p.deadline n.deadline)) [
  | inl front ↦
      let before : p.deadline ≤ n.deadline = ground arith in
      rw front ((before, All-map (λ x le. omega arith) rest ord.0), ord)
  | inr on ↦
      rw on (All-insert_after _ p rest (ground arith) ord.0, insert_after-Sorted p rest ord.1)
]

-- Behind the timeouts that are collected the order is kept.
pub collect-Sorted :
    (now callnr : ℕ) (l : List Timeout) → Sorted l → Sorted (collect now callnr l).1
unfolding collect
collect-Sorted now zero l ord = ord
collect-Sorted now (suc callnr) [] ord = tt
collect-Sorted now (suc callnr) (n ∷ rest) ord = elim (Bool-cases (leb n.deadline now)) [
  | inl due ↦ rw due (collect-Sorted now callnr rest ord.1)
  | inr not_due ↦ rw not_due ord
]

pub count-collect :
    (f : Timeout → Bool) (now callnr : ℕ) (l : List Timeout)
    → count f (collect now callnr l).0 + count f (collect now callnr l).1 ≡ count f l
unfolding collect
count-collect f now zero l = omega arith
count-collect f now (suc callnr) [] = refl
count-collect f now (suc callnr) (n ∷ rest) = elim (Bool-cases (leb n.deadline now)) [
  | inl due ↦ rw due (omega (arith, count-collect f now callnr rest))
  | inr not_due ↦ rw not_due (omega arith)
]

count-buffer :
    (n node k : ℕ)
    → (n < node → count (is_node n) (buffer node k) ≡ 0) × (count (is_node n) (buffer node k) ≤ 1)
count-buffer n node zero = (λ _. refl, omega arith)
count-buffer n node (suc k) =
    (λ lt. ground (arith, count-buffer n (node + 1) k), ground (arith, count-buffer n (node + 1) k))

-- init_timer puts every node of the buffer on the free list, once, and arms none.
pub init_timer-IsTimers : {W : Type 0} (s : Timers W) → IsTimers (init_timer s)
unfolding init_timer
init_timer-IsTimers s = record {
  sorted = tt;
  once = λ n. omega (arith, (count-buffer n 0 nr_timer_buf).1);
}
