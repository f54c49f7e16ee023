-- ===== src/Fdt/Translate.antt =====
-- port/src/fdt.rs: `Range::translate`, as a map from an interval of the child bus to the parent bus.
use r.Common.{
  ℕ, ◌+◌, ◌-◌, ◌^◌, ◌≤◌, ◌<◌, ◌≡◌, refl, ◌∙◌, Bool, true, ◌&&◌, none, some, done, arith, ltb, leb,
  lt→ltb, ltb-false, le→leb, leb-false, dec_lt, dec_le, if◌then◌else◌,
}
use r.Common.Word.{u64_mod}
use r.Fdt.Reg.{RegBlock, RangeMapping, mapped, translate}

-- A mapping whose two intervals lie in the address space.
pub record IsValid (m : RangeMapping) : Type 0 where
  pub child : m.child_bus_addr + m.len < 2 ^ 64
  pub parent : m.parent_bus_addr + m.len < 2 ^ 64

abbrev pub covers : RangeMapping → ℕ → Bool
covers m addr = leb m.child_bus_addr addr && ltb addr (m.child_bus_addr + m.len)

-- A valid mapping translates exactly the blocks whose address lies in the child's interval, to the same
-- offset in the parent's interval, and keeps their length.
pub translate_lem :
    (m : RangeMapping) (reg : RegBlock)
    → IsValid m
    → translate (mapped m) reg
      ≡ done (
          if covers m reg.addr
          then some
              (record { addr = m.parent_bus_addr + (reg.addr - m.child_bus_addr); len = reg.len })
          else none)
unfolding translate
translate_lem m reg v = elim (dec_le m.child_bus_addr reg.addr) [
  | yes from ↦ elim (dec_lt reg.addr (m.child_bus_addr + m.len)) [
    | yes below ↦
        let moved : reg.addr - m.child_bus_addr + m.parent_bus_addr
            ≡ m.parent_bus_addr + (reg.addr - m.child_bus_addr) =
          omega arith in
        rw
          (le→leb m.child_bus_addr reg.addr from, lt→ltb (m.child_bus_addr + m.len) u64_mod v.child)
          (rw (lt→ltb reg.addr (m.child_bus_addr + m.len) below, moved)
            (rw
              (lt→ltb (m.parent_bus_addr + (reg.addr - m.child_bus_addr)) u64_mod
                (let p = v.parent in omega arith))
              refl))
    | no above ↦
        rw
          (le→leb m.child_bus_addr reg.addr from, lt→ltb (m.child_bus_addr + m.len) u64_mod v.child)
          (rw (ltb-false reg.addr (m.child_bus_addr + m.len) (omega arith)) refl)
  ]
  | no before ↦ rw (leb-false m.child_bus_addr reg.addr (omega arith)) refl
]

-- Two buses in a row, the parent's interval of the first within the child's interval of the second: a
-- block that the first translates, the second translates too, and the offset is kept throughout.
pub translate-translate :
    (m n : RangeMapping) (reg : RegBlock)
    → IsValid m
    → IsValid n
    → n.child_bus_addr ≤ m.parent_bus_addr
    → m.parent_bus_addr + m.len ≤ n.child_bus_addr + n.len
    → covers m reg.addr ≡ true
    → (reg' reg'' : RegBlock) × (translate (mapped m) reg ≡ done (some reg'))
      × (translate (mapped n) reg' ≡ done (some reg''))
      × (reg''.addr
          ≡ n.parent_bus_addr
            + (m.parent_bus_addr - n.child_bus_addr)
            + (reg.addr - m.child_bus_addr))
      × (reg''.len ≡ reg.len)
translate-translate m n reg v w lo hi inside =
    let addr = m.parent_bus_addr + (reg.addr - m.child_bus_addr) in
    let reg' : RegBlock = record { addr = addr; len = reg.len } in
    let reg'' : RegBlock = record {
      addr = n.parent_bus_addr + (addr - n.child_bus_addr);
      len = reg.len;
    } in
    let in_m : (m.child_bus_addr ≤ reg.addr) × (reg.addr < m.child_bus_addr + m.len) =
      ground arith in
    let inside' : covers n addr ≡ true =
      rw
        (
          le→leb n.child_bus_addr addr (omega arith),
          lt→ltb addr (n.child_bus_addr + n.len) (omega arith),
        )
        refl in
    (
      reg',
      reg'',
      translate_lem m reg v ∙ rw inside refl,
      translate_lem n reg' w ∙ rw inside' refl,
      omega arith,
      refl,
    )
