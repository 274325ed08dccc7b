-- ===== src/Boot/E820.antt =====
-- The walks over the map of memory, arch/x86_64/multiboot.c: `init_e820`, and the limits that
-- `init_bootload` finds. A walk over the entries is one over their list.
use yaos.Prelude.{ℕ, ◌+◌, ◌*◌, ◌/◌, ◌%◌, ◌^◌, Bool, List, [], ◌∷◌, ltb, ◌==◌, if◌then◌else◌}
use yaos.Prelude.Outcome.{Action, ◌>>◌, pure}
use yaos.Pgtable.{page_2m}
use yaos.Boot.{
  MemoryMap, Boot, add_reverse, add_map, deal_reverse, on_mem, on_iomem, ioapic_base, minus,
}

-- the address and the size of an entry
abbrev pub addr_of : MemoryMap → ℕ
addr_of m = m.base_addr_high * 2 ^ 32 + m.base_addr_low

abbrev pub msize_of : MemoryMap → ℕ
msize_of m = m.length_high * 2 ^ 32 + m.length_low

abbrev pub is_usable : MemoryMap → Bool
is_usable m = m.type_of == 1

-- An entry goes to `on_mem` or to `on_iomem`, less what is reserved.
pub deal_entry : ℕ → MemoryMap → Action Boot (Unit {0})
deal_entry rounds m s =
    if is_usable m
    then deal_reverse (on_mem rounds) s.revmem s.max_reverse_addr rounds (addr_of m) (msize_of m) s
    else deal_reverse on_iomem s.revmem s.max_reverse_addr rounds (addr_of m) (msize_of m) s

-- `maxaddr` stays 0 in `init_e820`, so that no address is adjusted to it.
pub deal_entries : ℕ → List MemoryMap → Action Boot (Unit {0})
deal_entries rounds [] = pure tt
deal_entries rounds (m ∷ rest) = deal_entry rounds m >> deal_entries rounds rest

pub init_e820 : ℕ → ℕ → ℕ → List MemoryMap → Action Boot (Unit {0})
init_e820 rounds kernel_start kernel_end entries = do
  add_reverse 0 0x10000
  add_reverse kernel_start (minus kernel_end kernel_start)
  add_map (ioapic_base / page_2m + 1)
  deal_entries rounds entries

-- `maxaddr` and `maxmemaddr` of `init_bootload`, which become __max_phy_addr and __max_phy_mem_addr
pub record Limits : Type 0 where
  pub maxaddr : ℕ
  pub maxmemaddr : ℕ

abbrev pub greater : ℕ → ℕ → ℕ
greater old new = if ltb old new then new else old

abbrev pub stop_at : MemoryMap → ℕ
stop_at m = (addr_of m + msize_of m) % 2 ^ 64

pub limits : List MemoryMap → Limits → Limits
limits [] l = l
limits (m ∷ rest) l = limits rest (record {
  maxaddr = greater l.maxaddr (stop_at m);
  maxmemaddr = if is_usable m then greater l.maxmemaddr (stop_at m) else l.maxmemaddr;
})
