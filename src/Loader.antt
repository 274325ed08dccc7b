-- ===== src/Loader.antt =====
-- The module loader, kernel/module.c: the table of modules, and the rounds in which they are loaded.
--
-- `all` is the list of the elements of the table in use. `percpu_status` is that of one processor,
-- kept with each module. A handler is the address of a function; `event` runs it on the number of the
-- module, and what it changes is the world.
pub mod Loaded
pub mod Rounds
mod Tests
use yaos.Prelude.{
  ℕ, zero, suc, ◌+◌, ◌-◌, ◌^◌, Bool, true, false, not, ◌&&◌, ◌||◌, List, [], ◌∷◌, ◌++◌, length, leb,
  ◌==◌, if◌then◌else◌,
}
use yaos.Prelude.Outcome.{Outcome, ok, halt, Action, ◌>>=◌, ◌>>◌, pure}

pub record Moduledata : Type 0 where
  pub name : ℕ
  pub evhand : ℕ
  pub priv : ℕ

pub record Module : Type 0 where
  pub status : Bool  -- MODULE_LOADED
  pub percpu_status : Bool
  pub id : ℕ
  pub name : ℕ
  pub handler : ℕ
  pub arg : ℕ

abbrev pub max_module_nr : ℕ
max_module_nr = 256

abbrev pub mod_err_ok : ℕ
mod_err_ok = 0

-- −1 as an `int`
abbrev pub mod_err_nextloop : ℕ
mod_err_nextloop = 2 ^ 32 - 1

abbrev pub mod_bpload : ℕ
mod_bpload = 0

abbrev pub mod_apload : ℕ
mod_apload = 1

-- `if (!p->name || !p->evhand)`
abbrev pub is_zero : Moduledata → Bool
is_zero p = p.name == 0 || p.evhand == 0

abbrev pub adding : ℕ → Moduledata → Module
adding i p = record {
  status = false;
  percpu_status = false;
  id = i;
  name = p.name;
  handler = p.evhand;
  arg = p.priv;
}

-- the processor that loads: the first one, or another
pub data Loads : Type 0 where
  bp ap : Loads

abbrev pub event_of : Loads → ℕ
event_of bp = mod_bpload
event_of ap = mod_apload

abbrev pub is_due : Loads → Module → Bool
is_due bp m = not m.status
is_due ap m = m.status && not m.percpu_status

abbrev pub loaded : Loads → Module → Module
loaded bp m = record m { status = true }
loaded ap m = record m { percpu_status = true }

module _ {W : Type 0} (event : ℕ → ℕ → ℕ → ℕ → Action W ℕ) where
  -- The module after the handler has returned `ret`, and whether it asks for another round.
  abbrev pub answered : Loads → Module → ℕ → Module × Bool
  answered who m ret =
      if ret == mod_err_ok then (loaded who m, false) else (m, ret == mod_err_nextloop)

  pub load : Loads → Module → Action W (Module × Bool)
  load who m w = (event m.handler (event_of who) m.id m.arg >>= λ ret. pure (answered who m ret)) w

  -- one round over the modules
  pub load_due : Loads → List Module → Action W (List Module × Bool)
  load_due who [] w = ok (([], false), w)
  load_due who (m ∷ rest) w =
      let others = load_due who rest in
      if is_due who m
      then (do (m', next) ← load who m; (rest', found) ← others; pure (m' ∷ rest', next || found)) w
      else (do (rest', found) ← others; pure (m ∷ rest', found)) w

  -- `while (found && --times)`, with `times` at one more than `left`
  pub load_again : Loads → ℕ → Bool → List Module → Action W (List Module)
  load_again who zero found all w = ok (all, w)
  load_again who (suc left) found all w =
      let next_round = load_again who left in
      if found
      then (load_due who all >>= λ (all', found'). next_round found' all') w
      else ok (all, w)

  -- The first loop of `init_module`: from the element `i` of the table on. It does not look whether the
  -- table is full; a write behind it is outside of the model.
  pub add_modules : ℕ → List Moduledata → Action W (List Module × Bool)
  add_modules i [] w = ok (([], false), w)
  add_modules i (p ∷ rest) w =
      let skip = add_modules i rest in
      let others = add_modules (i + 1) rest in
      if is_zero p
      then skip w
      else if leb max_module_nr i
      then halt
      else (do
        (m, next) ← load bp (adding i p)
        (rest', found) ← others
        pure (m ∷ rest', next || found))
          w

  pub init_module : List Moduledata → Action W (List Module)
  init_module table w = (add_modules 0 table >>= λ (all, found). load_again bp 9 found all) w

  pub init_module_ap : List Module → Action W (List Module)
  init_module_ap all w = (load_due ap all >>= λ (all', found). load_again ap 9 found all') w
