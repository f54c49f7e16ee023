-- ===== src/Aarch64/Vm/Entry.antt =====
-- aarch64/src/vm.rs: `Entry`, an entry of a page table.
--
-- The struct and the functions on its fields are generated by the crate bitstruct: they are the
-- parameter `EntryOps`, with what its documentation says of them. A field's value is the number that
-- its bits stand for; for an enum this is the number that its variant has.
use r.Common.{ℕ, ◌*◌, ◌/◌, ◌^◌, ◌<◌, ◌≡◌, ◌≢◌, Bool, true, false, ◌&&◌, ◌==◌, if◌then◌else◌}
use r.Aarch64.Kmem.{physaddr_as_virt}
use r.Aarch64.Vm.{Level, level0, level1, level2, level3}

pub data Mair : Type 0 where
  normal device : Mair

abbrev pub mair_code : Mair → ℕ
mair_code normal = 0
mair_code device = 1

pub data AccessPermission : Type 0 where
  priv_rw all_rw priv_ro all_ro : AccessPermission

abbrev pub access_code : AccessPermission → ℕ
access_code priv_rw = 0
access_code all_rw = 1
access_code priv_ro = 2
access_code all_ro = 3

pub data Shareable : Type 0 where
  non unpredictable outer inner : Shareable

abbrev pub shareable_code : Shareable → ℕ
shareable_code non = 0
shareable_code unpredictable = 1
shareable_code outer = 2
shareable_code inner = 3

pub data Field : Type 0 where
  valid page_or_table mair_index non_secure access_permission shareable accessed addr pxn uxn :
      Field

-- The number of bits of a field.
abbrev pub width : Field → ℕ
width valid = 1
width page_or_table = 1
width mair_index = 3
width non_secure = 1
width access_permission = 2
width shareable = 2
width accessed = 1
width addr = 36
width pxn = 1
width uxn = 1

-- `Entry(0)`, the functions that read a field and the functions `with_` that set one.
pub record EntryOps (E : Type 0) : Type 0 where
  pub zero_entry : E
  pub get : Field → E → ℕ
  pub put : Field → ℕ → E → E

pub record IsLawful {E : Type 0} (ops : EntryOps E) : Type 0 where
  pub get-zero : (f : Field) → ops.get f ops.zero_entry ≡ 0
  pub get-put : (f : Field) (v : ℕ) (e : E) → v < 2 ^ width f → ops.get f (ops.put f v e) ≡ v
  pub get-put_other :
      (f g : Field) (v : ℕ) (e : E) → f ≢ g → ops.get g (ops.put f v e) ≡ ops.get g e

abbrev pub bit : Bool → ℕ
bit b = if b then 1 else 0

module _ {E : Type 0} (ops : EntryOps E) where
  open ops use {zero_entry, get, put}

  abbrev pub empty : E
  empty = zero_entry

  abbrev pub flag : Field → E → Bool
  flag f e = get f e == 1

  -- The chain of calls that the four kinds of kernel memory share, after their own first call.
  abbrev kernel_entry : Bool → Mair → E → E
  kernel_entry no_execute mair e = put valid (bit true) (
      put mair_index (mair_code mair) (
        put pxn (bit no_execute)
          (put uxn (bit true) (put accessed (bit true) (put shareable (shareable_code inner) e)))))

  unfoldable pub rw_kernel_data : E
  rw_kernel_data = kernel_entry true normal zero_entry

  unfoldable pub ro_kernel_data : E
  ro_kernel_data = kernel_entry true normal (put access_permission (access_code priv_ro) zero_entry)

  unfoldable pub ro_kernel_text : E
  ro_kernel_text =
      kernel_entry false normal (put access_permission (access_code priv_rw) zero_entry)

  unfoldable pub ro_kernel_device : E
  ro_kernel_device =
      kernel_entry true device (put access_permission (access_code priv_rw) zero_entry)

  unfoldable pub with_phys_addr : ℕ → E → E
  with_phys_addr pa e = put addr (pa / 2 ^ 12) e

  -- An entry that points to the table at a physical address.
  unfoldable pub table_entry : ℕ → E
  table_entry pa = put page_or_table (bit true) (with_phys_addr pa rw_kernel_data)

  unfoldable pub phys_page_addr : E → ℕ
  phys_page_addr e = get addr e * 2 ^ 12

  unfoldable pub virt_page_addr : E → ℕ
  virt_page_addr e = physaddr_as_virt (phys_page_addr e)

  abbrev above_leaves : Level → Bool
  above_leaves level3 = false
  above_leaves level0 = true
  above_leaves level1 = true
  above_leaves level2 = true

  unfoldable pub table : E → Level → Bool
  table e level = flag page_or_table e && above_leaves level
