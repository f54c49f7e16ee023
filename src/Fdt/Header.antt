-- ===== src/Fdt/Header.antt =====
-- port/src/fdt.rs: `FdtHeader`, `DeviceTree` and their construction.
use r.Common.{
  ℕ, zero, suc, ◌+◌, ◌%◌, Bool, true, false, ◌||◌, Option, none, some, List, [], ◌∷◌, Run, length,
  and_then, Result, ok, err, expect, ◌==◌, if◌then◌else◌,
}
use r.Common.Word.{u32_mod}
use r.Fdt.Bytes.{bytes_to_u32_offset, get_range}

pub data ParseError : Type 0 where
  invalid_header invalid_magic buffer_too_small invalid_token : ParseError

pub record FdtHeader : Type 0 where
  pub magic : ℕ
  pub totalsize : ℕ
  pub off_dt_struct : ℕ
  pub off_dt_strings : ℕ
  pub off_mem_rsvmap : ℕ
  pub version : ℕ
  pub last_comp_version : ℕ
  pub boot_cpuid_phys : ℕ
  pub size_dt_strings : ℕ
  pub size_dt_struct : ℕ

pub record DeviceTree : Type 0 where
  pub bytes : List ℕ
  pub header : FdtHeader

abbrev pub fdt_magic : ℕ
fdt_magic = 0xd00dfeed

-- `size_of::<FdtHeader>()`: ten fields of four bytes.
abbrev pub header_size : ℕ
header_size = 40

unfoldable pub new_header : List ℕ → Option FdtHeader
new_header bytes = and_then (bytes_to_u32_offset bytes 0) λ magic.
    and_then (bytes_to_u32_offset bytes 4) λ totalsize.
      and_then (bytes_to_u32_offset bytes 8) λ off_dt_struct.
        and_then (bytes_to_u32_offset bytes 12) λ off_dt_strings.
          and_then (bytes_to_u32_offset bytes 16) λ off_mem_rsvmap.
            and_then (bytes_to_u32_offset bytes 20) λ version.
              and_then (bytes_to_u32_offset bytes 24) λ last_comp_version.
                and_then (bytes_to_u32_offset bytes 28) λ boot_cpuid_phys.
                  and_then (bytes_to_u32_offset bytes 32) λ size_dt_strings.
                    and_then (bytes_to_u32_offset bytes 36) λ size_dt_struct. some (record {
                      magic = magic;
                      totalsize = totalsize;
                      off_dt_struct = off_dt_struct;
                      off_dt_strings = off_dt_strings;
                      off_mem_rsvmap = off_mem_rsvmap;
                      version = version;
                      last_comp_version = last_comp_version;
                      boot_cpuid_phys = boot_cpuid_phys;
                      size_dt_strings = size_dt_strings;
                      size_dt_struct = size_dt_struct;
                    })

-- The tests that follow `new_header`; `len` is the buffer's length as a `u32`.
unfoldable pub check_header : ℕ → Bool → FdtHeader → Result ParseError FdtHeader
check_header len ignore_size h =
    if h.magic == fdt_magic
    then (if len == h.totalsize || ignore_size then ok h else err buffer_too_small)
    else err invalid_magic

unfoldable pub fdt_header_new : List ℕ → Bool → Result ParseError FdtHeader
unfolding new_header check_header
fdt_header_new bytes ignore_size = elim (new_header bytes) [
  | none ↦ err invalid_header
  | some h ↦ check_header (length bytes % u32_mod) ignore_size h
]

unfoldable pub new : List ℕ → Result ParseError DeviceTree
new bytes = elim (fdt_header_new bytes false) [
  | ok header ↦ ok (record { bytes = bytes; header = header })
  | err e ↦ err e
]

abbrev pub size : DeviceTree → ℕ
size dt = dt.header.totalsize

-- `slice::from_raw_parts`: `n` bytes of memory from an address on.
unfoldable pub read_memory : (ℕ → ℕ) → ℕ → ℕ → List ℕ
read_memory memory ptr zero = []
read_memory memory ptr (suc n) = memory ptr ∷ read_memory memory (ptr + 1) n

unfoldable pub from_usize : (ℕ → ℕ) → ℕ → Result ParseError DeviceTree
unfolding read_memory
from_usize memory ptr = elim (fdt_header_new (read_memory memory ptr header_size) true) [
  | err e ↦ err e
  | ok for_header ↦
      let dtb_buf = read_memory memory ptr for_header.totalsize in
      elim (fdt_header_new dtb_buf false) [
        | ok header ↦ ok (record { bytes = dtb_buf; header = header })
        | err e ↦ err e
      ]
]

-- Slicing by `[start..end]` out of range is a panic.
unfoldable pub structs : DeviceTree → Run (List ℕ)
structs dt =
    let start = dt.header.off_dt_struct in
    expect (get_range dt.bytes start (start + dt.header.size_dt_struct))

unfoldable pub strings : DeviceTree → Run (List ℕ)
strings dt =
    let start = dt.header.off_dt_strings in
    expect (get_range dt.bytes start (start + dt.header.size_dt_strings))
