-- ===== src/Softirq/Serve/Bits.antt =====
-- The loop over the pending bits calls one handler for each bit, the lowest first.
use yaos.Prelude.{
  ℕ, zero, suc, ◌+◌, ◌%◌, ◌≤◌, ◌<◌, ◌≡◌, refl, sym, ap, ◌∙◌, subst, true, false, List, [], ◌∷◌,
  arith, All, length, if◌then◌else◌,
}
use yaos.Prelude.Outcome.{Action, ok, ◌>>◌}
use yaos.Bitmap.{Word, ffs, first_set}
use yaos.Softirq.{Softirqs, shift_right}
use yaos.Softirq.Serve.{act, serve_bit, serve_all, softirq_rounds}
use mathlib.Core.Path.{fun_ext}

-- the numbers of the bits that are set, counted from `h`
abbrev pub positions : ℕ → Word → List ℕ
positions h [] = []
positions h (b ∷ w) = if b then h ∷ positions (h + 1) w else positions (h + 1) w

first_set-none : (n h : ℕ) (w : Word) → length w ≤ n → first_set n w ≡ 0 → positions h w ≡ []
first_set-none n h [] le e = refl
first_set-none zero h (b ∷ w) le e = absurd (omega arith)
first_set-none (suc n) h (true ∷ w) le e = absurd (omega (arith, e))
first_set-none (suc n) h (false ∷ w) le e =
    first_set-none n (h + 1) w (omega arith) (go (first_set n w) e)
  where
    go : (k : ℕ) → elim k as (λ _. ℕ) [ zero ↦ 0 | suc j ↦ suc (suc j) ] ≡ 0 → k ≡ 0
    go zero e = refl
    go (suc k) e = absurd (omega (arith, e))

first_set-some :
    (n h b : ℕ) (w : Word)
    → first_set n w ≡ suc b
    → positions h w ≡ (h + b) ∷ positions (h + b + 1) (shift_right (suc b) w)
first_set-some zero h b w e = absurd (omega (arith, e))
first_set-some (suc n) h b [] e = absurd (omega (arith, e))
first_set-some (suc n) h b (true ∷ w) e =
    let none_before : 0 ≡ b = omega (arith, e) in
    let at_start : h ≡ h + 0 = omega arith in
    subst (λ c. h ∷ positions (h + 1) w ≡ (h + c) ∷ positions (h + c + 1) (shift_right c w))
      none_before (ap (λ j. j ∷ positions (j + 1) w) at_start)
first_set-some (suc n) h b (false ∷ w) e =
    go (first_set n w) refl e (λ k at. first_set-some n (h + 1) k w at)
  where
    go :
        (k : ℕ)
        → first_set n w ≡ k
        → elim k as (λ _. ℕ) [ zero ↦ 0 | suc j ↦ suc (suc j) ] ≡ suc b
        → ((c : ℕ)
            → first_set n w ≡ suc c
            → positions (h + 1) w ≡ (h + 1 + c) ∷ positions (h + 1 + c + 1) (shift_right (suc c) w))
        → positions (h + 1) w ≡ (h + b) ∷ positions (h + b + 1) (shift_right b w)
    go zero at e ih = absurd (omega (arith, e))
    go (suc k) at e ih =
        let one_more : suc k ≡ b = omega (arith, e) in
        let moved : h + 1 + k ≡ h + suc k = omega arith in
        subst (λ c. positions (h + 1) w ≡ (h + c) ∷ positions (h + c + 1) (shift_right c w))
          one_more (ih k at ∙ ap (λ j. j ∷ positions (j + 1) (shift_right (suc k) w)) moved)

length-positions : (h : ℕ) (w : Word) → length (positions h w) ≤ length w
length-positions h [] = omega arith
length-positions h (true ∷ w) = omega (arith, length-positions (h + 1) w)
length-positions h (false ∷ w) = omega (arith, length-positions (h + 1) w)

length-shift_right : (n : ℕ) (w : Word) → length (shift_right n w) ≤ length w
length-shift_right zero w = omega arith
length-shift_right (suc n) [] = omega arith
length-shift_right (suc n) (b ∷ w) = omega (arith, length-shift_right n w)

module _ {W : Type 0} (func : ℕ → ℕ → Action (Softirqs W) (Unit {0}))
    (handle : ℕ → ℕ → Action (Softirqs W) (Unit {0})) (switch : Action (Softirqs W) (Unit {0}))
    (links : ℕ) where
  -- the handlers of a list of numbers, one after the other
  abbrev pub act_all : List ℕ → Action (Softirqs W) (Unit {0})
  act_all [] s = ok (tt, s)
  act_all (nr ∷ l) s = (act func handle switch links nr >> act_all l) s

  then-same :
      {S : Type 0} (m k k' : Action S (Unit {0})) (s : S)
      → ((t : S) → k t ≡ k' t)
      → (m >> k) s ≡ (m >> k') s
  then-same m k k' s same = ap (λ n. (m >> n) s) (fun_ext same)

  serve_all-positions :
      (rounds h : ℕ) (w : Word) (s : Softirqs W)
      → length w ≤ 32
      → All (λ nr. nr < 31) (positions h w)
      → length (positions h w) < rounds
      → serve_all func handle switch links rounds h w s ≡ act_all (positions h w) s
  unfolding serve_all ffs
  serve_all-positions zero h w s fits low enough = absurd (omega arith)
  serve_all-positions (suc rounds) h w s fits low enough =
      go (first_set 32 w) refl
        (λ k w' fits' low' enough' t. serve_all-positions rounds k w' t fits' low' enough')
    where
      go :
          (b : ℕ)
          → first_set 32 w ≡ b
          → ((k : ℕ) (w' : Word)
              → length w' ≤ 32
              → All (λ nr. nr < 31) (positions k w')
              → length (positions k w') < rounds
              → (t : Softirqs W)
              → serve_all func handle switch links rounds k w' t ≡ act_all (positions k w') t)
          → serve_bit func handle switch links (serve_all func handle switch links rounds) h w b s
            ≡ act_all (positions h w) s
      go zero e ih = rw (first_set-none 32 h w fits e) refl
      go (suc b) e ih =
          let d = first_set-some 32 h b w e in
          let low' : All (λ nr. nr < 31) ((h + b) ∷ positions (h + b + 1) (shift_right (suc b) w)) =
            subst (All (λ nr. nr < 31)) d low in
          let below : h + b < 31 = low'.0 in
          let count : (b + 1) % 32 ≡ suc b = grind (arith, below) in
          let fewer : length (positions (h + b + 1) (shift_right (suc b) w)) < rounds =
            omega (arith, enough, ap length d) in
          let fits' : length (shift_right (suc b) w) ≤ 32 =
            omega (arith, fits, length-shift_right (suc b) w) in
          ap
            (λ n.
              (act func handle switch links (h + b)
                  >> serve_all func handle switch links rounds (h + b + 1) (shift_right n w))
                s)
            count
          ∙ then-same (act func handle switch links (h + b)) _
              (act_all (positions (h + b + 1) (shift_right (suc b) w))) s
              (ih (h + b + 1) (shift_right (suc b) w) fits' low'.1 fewer)
          ∙ ap (λ l. act_all l s) (sym d)

  -- Let `pending` have at most 32 bits, of which bit 31 is not set. Then 33 tests are enough for the
  -- loop over it: it does what the calls of the handlers of its bits do, the lowest bit first, whatever
  -- these do.
  pub serve_all-act_all :
      (pending : Word) (s : Softirqs W)
      → length pending ≤ 32
      → All (λ nr. nr < 31) (positions 0 pending)
      → serve_all func handle switch links softirq_rounds 0 pending s
        ≡ act_all (positions 0 pending) s
  serve_all-act_all pending s fits low =
      serve_all-positions softirq_rounds 0 pending s fits low
        (omega (arith, length-positions 0 pending))
