-- ===== src/Lib.antt =====
-- The r9 kernel: the crate port, with its memory ranges, page allocator, device tree, heap and lock, the
-- page tables and devices of aarch64, and the build tool.
--
-- The program's parts and their files:
--   Mem        port/src/mem.rs: VirtRange, PhysAddr, PhysRange and the walk of a range page by page.
--              Mem/Align has the bit tricks of round_up and round_down, Mem/Walk the pages of a range.
--   Bitmap     port/src/bitmapalloc.rs: Bitmap. Bitmap/Alloc has BitmapPageAlloc, one function for each
--              method; its children are named for what they prove: Valid (well-formed allocators and
--              the map of pages that they stand for), Mark (mark_range), Unused (free_unused_ranges),
--              Boot (the same for a new allocator), Scan (the byte iterator), Search (its use in
--              allocate), Pages (allocate), Release (deallocate), Usage (usage_bytes) and Rounding
--              (ranges not of whole pages).
--   Fdt        port/src/fdt.rs: Bytes (numbers and strings in byte slices), Header (FdtHeader,
--              DeviceTree::new, from_usize), Token (parse_token), Node (nodes and properties), Prop
--              (values, compatible), Tree (parent, find_by_path), Cells (reg and ranges) and Reg
--              (RegBlock, Range::translate); Shape (trees as blocks of tokens), Find, Progress, Words,
--              Load and Translate (what they do).
--   Allocator  port/src/allocator.rs: Block, Bump (BumpAlloc), Store (the headers in memory and their
--              lists), Quick (QuickFit) and Global (the slot of the global allocator); Fit, Place,
--              Steps, Reuse, Unlink, NewHeader and Large (what they do).
--   Mcslock    port/src/mcslock.rs: the steps of LockNode and MCSLock; Inv (the order of the queue), Moves,
--              Writes, Enter, Link, Leave, Places, Handover and Accesses (that each step keeps it),
--              Exclusion (the states that are reached), Fifo (the lock as a queue) and Stuck (a thread
--              that waits in unlock alone).
--   Devcons    port/src/devcons.rs: Console and PanicConsole over a UART.
--   Aarch64    aarch64/src: Kmem (kmem.rs, param.rs: addresses), Pagealloc (pagealloc.rs: the kernel's page
--              allocator), Vm (vm.rs: levels, indices and recursive addresses of page tables), Registers
--              (registers.rs: the board), Io (io.rs: device registers), Discover (how a driver finds its
--              registers in the device tree), Mailbox (mailbox.rs), Uart (uartmini.rs, uartpl011.rs,
--              devcons.rs) and Drivers (what the drivers do on devices that become ready).
--              The children of Vm: Entry (Entry and its fields), Table (next_mut, map_to,
--              map_phys_range), Init (init), Walk (the tables as a tree, and the walk for an address),
--              Extend and Grow (what a new table keeps), Next (next_mut), Map (the place of an entry),
--              Install (map_to), Apart (different pages have different entries), Kept (a mapped page
--              stays so), Pages and Range (map_phys_range), Sorted (the map of init) and Mappings (its
--              loop).
--   Xtask      xtask/src: the build tool's words and how commands are started; Config (config.rs), Commands
--              and Cargo (main.rs: the commands of the steps), Steps (main.rs: the steps and the
--              subcommands) and Order (in which order commands run).
--   Common     what the parts share: tests of numbers, lists, runs that may panic, machine words, bits, text.
--   BitmapTests, FdtTests, AllocatorTests, KernelTests, McslockTests, VmTests, DriversTests, XtaskTests:
--              runs on concrete inputs.
--
-- How the parts meet: the page allocator walks a PhysRange by step_by_rounded; ranges and virtual ranges
-- are made from the RegBlocks that the device tree yields; the kernel's page allocator is an instance of
-- BitmapPageAlloc, whose pages it gives out at their virtual addresses; the page tables take their pages
-- from it, and map the ranges that the walk of a PhysRange gives. The drivers find their registers through
-- the device tree.
--
-- A method takes its state and returns the state that it leaves. A computation is a Run: done, or
-- panic (a failed assertion, an index out of range, an overflow of a checked operation), or hang, which
-- is a loop that has used up its fuel. The fuel of a walk through the device tree is one more than the
-- length of the structure block, since each token takes at least four bytes; that of the page scan is
-- twice the number of bytes of all bitmaps, since the iterator visits each at most twice; that of a
-- list of headers is one per 64 bytes of the arena. Additions and subtractions on machine words are those of a
-- build with overflow checks; products that give sizes are those of exact numbers, within the bound that
-- a well-formed allocator states.
--
-- The lock is a relation of steps: each access to an atomic is one step of its thread, and the accesses
-- interleave in one order. A thread has one node, which it uses again only after unlock.
--
-- Memory is a function from addresses to bytes, an argument of from_usize. The core library's pointer
-- and layout functions that allocator.rs uses are written out by their documentation.
--
-- Page tables lie in physical memory, as functions from indices to entries. An entry is of any type with
-- the functions that the crate bitstruct generates, whose laws are the record IsLawful. The translation of
-- recursive addresses by the machine is the parameter resolve, with the law IsMmu: where the four lookups
-- succeed, it gives the page that they end at. Caches of translations are not modelled; the code
-- invalidates them after each change of the root.
--
-- Devices are a state with loads and stores; a wait for a device takes as many reads as its fuel, and the
-- theorems on waits say how many are enough. The outside of the build tool is a state that starting a command
-- changes; environment variables, the existence of files and the configuration that is read are arguments.
--
-- Not modelled: formatting and printing, the guard of the lock, assembly, the start-up code and the trap
-- handler, which call and print only, the other architectures, which have little beyond their assembly and
-- console, and of the build tool the declaration of the command line and the reading of files by the crates
-- clap, serde and toml.
pub mod Aarch64
pub mod Allocator
pub mod AllocatorTests
pub mod Bitmap
pub mod BitmapTests
pub mod Common
pub mod Devcons
pub mod DriversTests
pub mod Fdt
pub mod FdtTests
pub mod KernelTests
pub mod Mcslock
pub mod McslockTests
pub mod Mem
pub mod VmTests
pub mod Xtask
pub mod XtaskTests
