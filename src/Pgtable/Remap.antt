-- ===== src/Pgtable/Remap.antt =====
-- `ioremap_nocache`: the pages that a remapping maps.
use yaos.Prelude.{
  ℕ, ◌+◌, ◌*◌, ◌/◌, ◌%◌, ◌^◌, ◌≤◌, ◌<◌, ◌≡◌, ap, ◌∙◌, ◌&&◌, arith, leb, ◌==◌, if◌then◌else◌,
}
use yaos.Prelude.Outcome.{Action}
use yaos.Pgtable.{Paging, page_2m, io_mem_base, io_flags, success}
use yaos.Pgtable.Alloc.{IsAllocator, IsPaging}
use yaos.Pgtable.Map.{translation, same_page, Mapped}

-- the virtual address of a physical one
abbrev pub io_virtual : ℕ → ℕ
io_virtual paddr = (paddr + io_mem_base) % 2 ^ 64

-- the physical page of a virtual address, of which 48 bits count
abbrev pub io_page : ℕ → ℕ
io_page a = (a + 2 ^ 35) % 2 ^ 48 / page_2m * page_2m

-- what is found for the address `a`, if `x` was before, when the pages of 2M from `lo` to `hi` have been
-- mapped at IO_MEM_BASE
abbrev pub io_entry : ℕ → ℕ → ℕ → ℕ → ℕ
io_entry lo hi a x = if leb lo (io_page a) && leb (io_page a) hi then io_page a + io_flags else x

io-same : (x a : ℕ) → x % page_2m ≡ 0 → x < 2 ^ 48 → same_page (io_virtual x) a ≡ (x == io_page a)
io-same x a whole lt = ground (arith, whole, lt)

io_entry-one :
    (lo hi a x : ℕ)
    → lo % page_2m ≡ 0
    → lo ≤ hi
    → io_entry (lo + page_2m) hi a (if lo == io_page a then lo + io_flags else x)
      ≡ io_entry lo hi a x
io_entry-one lo hi a x whole le = ground (arith, whole, le)

pub io_entry-none : (lo hi a x : ℕ) → hi < lo → x ≡ io_entry lo hi a x
io_entry-none lo hi a x lt = ground (arith, lt)

module _ {W : Type 0} (Good : W → Type 0) (Held : W → ℕ → Type 0) (root : ℕ)
    (alloc_4k : ℕ → Action W ℕ) (law : IsAllocator alloc_4k Good Held) where
  -- The pages from `lo` to `hi` have been mapped, and no other.
  abbrev pub Remapped : ℕ → ℕ → Paging W → Paging W → Type 0
  Remapped lo hi s t =
      IsPaging Good Held root t × ((a : ℕ) → translation a t ≡ io_entry lo hi a (translation a s))

  pub one-Remapped :
      (lo hi : ℕ) (s t u : Paging W)
      → lo % page_2m ≡ 0
      → lo ≤ hi
      → hi < 2 ^ 48
      → Mapped Good Held root alloc_4k law (io_virtual lo) (lo + io_flags) s (success, t)
      → Remapped (lo + page_2m) hi t u
      → Remapped lo hi s u
  one-Remapped lo hi s t u whole le fits (_, _, one) (v, more) = (
    v,
    λ a.
        more a
        ∙ ap (io_entry (lo + page_2m) hi a) (
            one a
            ∙ ap (λ b. if b then lo + io_flags else translation a s)
                (io-same lo a whole (omega (arith, le, fits))))
        ∙ io_entry-one lo hi a (translation a s) whole le,
  )
