-- ===== src/Aarch64/Kmem.antt =====
-- aarch64/src/kmem.rs and param.rs: addresses of the kernel, virtual and physical.
--
-- The symbols of the linker script are the fields of a record. Subtraction is that of the checked
-- profile.
use r.Common.{ℕ, ◌+◌, ◌-◌, ◌%◌, ◌^◌, ◌≤◌, ◌<◌, ◌≡◌, refl, Run, done, ◌>>=◌, arith, le→leb}
use r.Common.Word.{u64_mod, sub64}
use r.Mem.{PhysRange}

abbrev pub kzero : ℕ
kzero = 0xffff_8000_0000_0000

pub record Symbols : Type 0 where
  pub eboottext : ℕ
  pub text : ℕ
  pub etext : ℕ
  pub rodata : ℕ
  pub erodata : ℕ
  pub kdata : ℕ
  pub edata : ℕ
  pub bss : ℕ
  pub ebss : ℕ
  pub kend : ℕ
  pub early_pagetables : ℕ
  pub eearly_pagetables : ℕ

abbrev pub base_addr : ℕ
base_addr = 0xffff_8000_0000_0000

unfoldable pub physaddr_as_virt : ℕ → ℕ
physaddr_as_virt pa = (pa + kzero) % u64_mod

unfoldable pub from_virt_to_physaddr : ℕ → Run ℕ
from_virt_to_physaddr va = sub64 va kzero

abbrev range : ℕ → ℕ → Run PhysRange
range from to = do
  start ← from_virt_to_physaddr from
  stop ← from_virt_to_physaddr to
  done (record { start = start; end = stop })

module _ (symbols : Symbols) where
  unfoldable pub boottext_range : Run PhysRange
  boottext_range = range base_addr symbols.eboottext

  unfoldable pub text_range : Run PhysRange
  text_range = range symbols.text symbols.etext

  unfoldable pub rodata_range : Run PhysRange
  rodata_range = range symbols.rodata symbols.erodata

  unfoldable pub data_range : Run PhysRange
  data_range = range symbols.kdata symbols.edata

  unfoldable pub bss_range : Run PhysRange
  bss_range = range symbols.bss symbols.ebss

  unfoldable pub total_kernel_range : Run PhysRange
  total_kernel_range = range base_addr symbols.kend

  unfoldable pub early_pages_range : Run PhysRange
  early_pages_range = range symbols.early_pagetables symbols.eearly_pagetables

-- A physical address in the kernel's window comes back from its virtual address.
pub from_virt_to_physaddr-physaddr_as_virt :
    (pa : ℕ) → pa < 2 ^ 47 → from_virt_to_physaddr (physaddr_as_virt pa) ≡ done pa
unfolding from_virt_to_physaddr physaddr_as_virt
from_virt_to_physaddr-physaddr_as_virt pa h =
    let inside : (pa + kzero) % u64_mod ≡ pa + kzero = omega arith in
    let back : pa + kzero - kzero ≡ pa = omega arith in
    rw inside (rw (le→leb kzero (pa + kzero) (omega arith), back) refl)

-- And the other way round.
physaddr_as_virt-from_virt_to_physaddr :
    (va : ℕ)
    → kzero ≤ va
    → va < 2 ^ 64
    → (pa : ℕ) × (from_virt_to_physaddr va ≡ done pa) × (physaddr_as_virt pa ≡ va)
unfolding from_virt_to_physaddr physaddr_as_virt
physaddr_as_virt-from_virt_to_physaddr va lo hi =
    (va - kzero, rw (le→leb kzero va lo) refl, omega arith)
