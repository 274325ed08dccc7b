-- ===== src/Vm/Area/Whole.antt =====
-- `alloc_vm` when it returns an area.
use yaos.Prelude.{ℕ, ◌⊎◌, ◌≡◌}
use yaos.Prelude.Outcome.{Outcome}
use yaos.Holes.{Holes}
use yaos.Vm.Linear.{Lent, Missed}
use yaos.Vm.{round_page}
use yaos.Vm.Area.{Space}
use yaos.Vm.Area.Fill.{Filled}

-- A whole area at `p`, or null if no hole is as large, with the lock held then.
abbrev pub IsArea : ℕ → ℕ → Space → ℕ × Space → Type 0
IsArea root size s (p, t) =
    (Lent s.linear (round_page size) p t.linear × Filled root p 0 size s.paging t.paging)
    ⊎ (Missed s.linear (round_page size) p t.linear × (t.paging ≡ s.paging))
