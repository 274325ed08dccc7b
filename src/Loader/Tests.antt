-- ===== src/Loader/Tests.antt =====
-- A table with an empty entry and two modules, of which the first waits for the second.
use yaos.Prelude.{
  ℕ, ◌+◌, ◌<◌, ◌≡◌, refl, sym, ◌∙◌, subst, inl, inr, Bool, true, false, ◌||◌, List, [], ◌∷◌, arith,
  All, Bool-cases, ◌==◌, length, if◌then◌else◌, if_true, if_false,
}
use yaos.Prelude.Outcome.{Outcome, Action, ok}
use yaos.Loader.{
  Moduledata, Module, init_module, add_modules, load_again, load_due, load, mod_err_nextloop,
}
use yaos.Loader.Rounds.{fresh, Answer, IsGraded}
use yaos.Loader.Loaded.{init_module-Loaded}

-- the modules that are up
abbrev has : List ℕ → ℕ → Bool
has [] j = false
has (x ∷ w) j = (x == j) || has w j

abbrev brought : ℕ → List ℕ → Outcome (ℕ × List ℕ)
brought i w = ok (0, i ∷ w)

abbrev event : ℕ → ℕ → ℕ → ℕ → Action (List ℕ) ℕ
event h e i a w =
    if i == 0 then if has w 1 then brought i w else ok (mod_err_nextloop, w) else brought i w

abbrev IsUp : List ℕ → ℕ → Type 0
IsUp w j = has w j ≡ true

abbrev rank : ℕ → ℕ
rank i = if i == 0 then 1 else 0

brought-Answer : (i : ℕ) (w : List ℕ) → Answer event IsUp rank 2 i w (brought i w)
brought-Answer i w = record {
  ret = 0;
  after = i ∷ w;
  returns = refl;
  stays = λ j u. ground (arith, u);
  verdict = inl (refl, ground arith);
}

event-IsGraded : IsGraded event IsUp rank 2
event-IsGraded h i a w = elim (Bool-cases (i == 0)) [
  | inl first ↦ elim (Bool-cases (has w 1)) [
    | inl ready ↦
        subst (Answer event IsUp rank 2 i w)
          (sym (if_true (i == 0) _ _ first ∙ if_true (has w 1) _ _ ready)) (brought-Answer i w)
    | inr waits ↦
        subst (Answer event IsUp rank 2 i w)
          (sym (if_true (i == 0) _ _ first ∙ if_false (has w 1) _ _ waits))
          (record {
            ret = mod_err_nextloop;
            after = w;
            returns = refl;
            stays = λ j u. u;
            verdict = inr (
              refl,
              λ lower. true-false (sym (lower 1 (omega arith) (ground (arith, first))) ∙ waits),
            );
          })
  ]
  | inr other ↦
      subst (Answer event IsUp rank 2 i w) (sym (if_false (i == 0) _ _ other)) (brought-Answer i w)
]
  where
    true-false : true ≡ false → ⊥
    true-false e = cc e

abbrev named : ℕ → Moduledata
named k = record { name = 700 + k; evhand = 800 + k; priv = 0 }

abbrev nothing : Moduledata
nothing = record { name = 0; evhand = 0; priv = 0 }

abbrev two_modules : List Moduledata
two_modules = nothing ∷ named 0 ∷ named 1 ∷ []

rank-lt : (j : ℕ) → j < length (fresh 0 two_modules) → rank j < 10
rank-lt j lt = ground arith

init_module-Loaded_example :
    (all : List Module) × (w' : List ℕ) × (init_module event two_modules [] ≡ ok (all, w'))
    × All (λ m. m.status ≡ true) all
    × (length all ≡ length (fresh 0 two_modules))
init_module-Loaded_example =
    init_module-Loaded event IsUp rank two_modules [] event-IsGraded (omega arith) rank-lt

-- The first module answers MOD_ERR_NEXTLOOP once and is loaded in the second round.
abbrev world_of : Outcome (List Module × List ℕ) → List ℕ
world_of (ok (all, w)) = w
world_of _ = []

init_module_runs : world_of (init_module event two_modules []) ≡ 0 ∷ 1 ∷ []
unfolding init_module add_modules load_again load_due load
init_module_runs = refl
