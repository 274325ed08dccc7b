-- ===== src/Phymem.antt =====
-- The allocator of 2M physical pages, arch/x86_64/phymem.c.
--
-- `pgbits` is a bitmap with a bit for each free page; `pnow` and `pmax` are pointers into it, here
-- indices. A read past the end of the array gives an empty word; `Phymem.Inv.IsValid` rules it out.
pub mod Alloc
pub mod Free
pub mod Inv
pub mod Progress
pub mod Samples
pub mod Scan
mod Tests
use yaos.Prelude.{
  ℕ, zero, suc, ◌+◌, ◌-◌, ◌*◌, ◌/◌, ◌%◌, Bool, true, false, ◌&&◌, Option, none, some, List, [], ◌∷◌,
  ltb, ◌==◌, if◌then◌else◌,
}
use yaos.Prelude.Outcome.{Outcome, ok, halt, spin, Action, ◌>>=◌, ◌>>◌, pure, assert}
use yaos.Bitmap.{Word, nonzero, ffs, word, test_and_set_bit, test_and_clear_bit}

-- `PAGE_SIZE` of arch/x86_64/include/asm/pgtable.h
abbrev pub page_size : ℕ
page_size = 0x200000

pub record Phymem : Type 0 where
  pub pgbits : List Word
  pub pnow : ℕ
  pub pmax : ℕ
  pub pages : ℕ
  pub max_phy_addr : ℕ

-- `while (++pnow < limit) if (*pnow) return pnow;` with `limit - (pnow + 1)` rounds left: whether a
-- word was found, and where `pnow` stands.
pub scan : List Word → ℕ → ℕ → Bool × ℕ
scan bits zero now = (false, now + 1)
scan bits (suc rounds) now =
    let rest = scan bits rounds (now + 1) in
    if nonzero (word bits (now + 1)) then (true, now + 1) else rest

-- what a search returns, with the new `pnow`
abbrev pub hit_or_null : Bool × ℕ → Option ℕ × ℕ
hit_or_null (true, now) = (some now, now)
hit_or_null (false, now) = (none, now)

-- `pnow = pgbits;` and the search up to where the first one began
pub scan_from_start : Phymem → Option ℕ × ℕ
scan_from_start s =
    if nonzero (word s.pgbits 0) then (some 0, 0) else hit_or_null (scan s.pgbits (s.pnow - 1) 0)

-- The word at `pnow`, then those up to `pmax`, then those from the start.
pub get_none_zero : Phymem → Option ℕ × ℕ
get_none_zero s =
    if nonzero (word s.pgbits s.pnow)
    then (some s.pnow, s.pnow)
    else let (found, now) = scan s.pgbits (s.pmax - (s.pnow + 1)) s.pnow in
      if found then (some now, now) else scan_from_start s

-- What the body of the loop of `alloc_phy_page` does with the word `p` that it found: the address
-- that it returns, or `none` for another round.
pub try_word : ℕ → Phymem → Option ℕ × Phymem
try_word p s =
    let pos = ffs (word s.pgbits p) in
    if pos == 0
    then (none, s)
    else let (old, bits) = test_and_clear_bit (p * 64 + (pos - 1)) s.pgbits in
      if old
      then (some (page_size * (pos - 1 + p * 64)), record s { pgbits = bits; pages = s.pages - 1 })
      else (none, record s { pgbits = bits })

-- A round of the loop `while (pages)`: `some` ends it with a result.
pub alloc_round : Phymem → Option ℕ × Phymem
alloc_round s =
    if s.pages == 0
    then (some 0, s)
    else let (p, now) = get_none_zero s in
      let s' : Phymem = record s { pnow = now } in
      elim p [ none ↦ (some 0, s') | some i ↦ try_word i s' ]

-- 0 stands for no memory.
pub alloc_phy_page : ℕ → Action Phymem ℕ
alloc_phy_page zero s = spin
alloc_phy_page (suc fuel) s =
    let (r, s') = alloc_round s in
    elim r [ some addr ↦ ok (addr, s') | none ↦ alloc_phy_page fuel s' ]

-- `if (test_and_set_bit(pos, pgbits)) printk(…); else pages++;`
pub release_page : ℕ → Phymem → Phymem
release_page pos s =
    let (old, bits) = test_and_set_bit pos s.pgbits in
    record s { pgbits = bits; pages = if old then s.pages else s.pages + 1 }

pub free_phy_one_page : ℕ → Action Phymem (Unit {0})
free_phy_one_page addr = if addr == 0 then pure tt else do
  s ← (λ s. ok (s, s))
  assert (addr % page_size == 0 && ltb addr s.max_phy_addr)
  λ s. ok (tt, release_page (addr / page_size) s)

-- `while (size > 0)` takes a page off each time: `count` rounds.
pub release_pages : ℕ → ℕ → Phymem → Phymem
release_pages zero pos s = s
release_pages (suc count) pos s = release_pages count (pos + 1) (release_page pos s)

pub free_phy_pages : ℕ → ℕ → Action Phymem (Unit {0})
free_phy_pages addr size = if addr == 0 then pure tt else do
  s ← (λ s. ok (s, s))
  assert (addr % page_size == 0 && ltb addr s.max_phy_addr)
  assert (size % page_size == 0)
  λ s. ok (tt, release_pages (size / page_size) (addr / page_size) s)
