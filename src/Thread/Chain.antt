-- ===== src/Thread/Chain.antt =====
-- The chain of parents from the running thread on, and the invariant of the scheduler.
use yaos.Prelude.{
  Distinct, ℕ, ◌≡◌, ◌≢◌, refl, Bool, true, false, none, some, List, [], ◌∷◌, arith, All,
  if◌then◌else◌, ==_iff, ◌∙◌,
}
use yaos.Thread.{Thread, Cpu, is_ready, update, first_stack}

-- `l` are the parents of the thread `k`, the nearest first
abbrev pub Parents : (ℕ → Thread) → ℕ → List ℕ → Type 0
Parents f k [] = (f k).parent ≡ none
Parents f k (p ∷ l) = ((f k).parent ≡ some p) × Parents f p l

module _ (mapped : ℕ → Bool) where
  -- where the thread goes on when control comes to it: at the start of its stack, or where it left
  abbrev pub entry : Thread → ℕ
  entry t = if is_ready t.state then first_stack t else t.rsp

  -- the assertions of the switch hold
  abbrev pub CanRun : Thread → Type 0
  CanRun t = (entry t ≢ 0) × (mapped (entry t) ≡ true)

  -- Control goes back along `l`: no thread stands there twice, the running one included, each can go
  -- on, and the running one has started.
  pub record IsRunning (s : Cpu) (l : List ℕ) : Type 0 where
    pub parents : Parents s.threads s.current l
    pub distinct : Distinct (s.current ∷ l)
    pub can_run : All (λ k. CanRun (s.threads k)) l
    pub running : is_ready (s.threads s.current).state ≡ false

pub update_self : (f : ℕ → Thread) (k : ℕ) (t : Thread) → update f k t k ≡ t
update_self f k t = rw ((==_iff k k).1 refl)

pub update_ne : (f : ℕ → Thread) (k : ℕ) (t : Thread) (j : ℕ) → j ≢ k → update f k t j ≡ f j
update_ne f k t j ne = ground (arith, ne)

-- A change of the thread `x` leaves the parents of others as they are.
pub Parents-change :
    (f g : ℕ → Thread) (x k : ℕ) (l : List ℕ)
    → ((j : ℕ) → j ≢ x → (g j).parent ≡ (f j).parent)
    → k ≢ x
    → All (λ j. j ≢ x) l
    → Parents f k l
    → Parents g k l
Parents-change f g x k [] same ne out h = same k ne ∙ h
Parents-change f g x k (p ∷ l) same ne out h =
    (same k ne ∙ h.0, Parents-change f g x p l same out.0 out.1 h.1)

-- What holds of threads other than `x` and `y` goes on to hold if these alone have changed.
pub All-change :
    (P Q : ℕ → Type 0) (x y : ℕ) (l : List ℕ)
    → ((j : ℕ) → j ≢ x → j ≢ y → P j → Q j)
    → All (λ j. j ≢ x) l
    → All (λ j. j ≢ y) l
    → All P l
    → All Q l
All-change P Q x y [] keep nx ny h = tt
All-change P Q x y (j ∷ l) keep nx ny h =
    (keep j nx.0 ny.0 h.0, All-change P Q x y l keep nx.1 ny.1 h.1)
