-- ===== src/Lib.antt =====
-- A verification library for the Generic kernel (crates/kernel-core and kernel).
--
-- The kernel is one Rust crate for the parts that can run anywhere (crates/kernel-core/src) and one for
-- the machine (kernel/src). The loader's memory map goes to the bootstrap allocator (lib.rs) and to the
-- physical memory manager (physical.rs); the kernel heap (mm/heap.rs) keeps its free ranges the way the
-- manager does. Paths go through the virtual file system (vfs.rs), which routes them to mounted file
-- systems behind one trait: the one in memory (vfs.rs) and the one on a block device (genericfs.rs).
-- elf.rs reads the programs that are run, psf.rs the fonts. Tasks are switched by a cooperative
-- scheduler (task.rs). A process (process.rs) gets a deep copy of the kernel's page tables
-- (page_tables.rs), into which the segments of its ELF image are mapped; what it passes to the kernel is
-- checked against its page tables (mm/mod.rs, arch/memory.rs).
--
-- Ranges and its children: the sorted table of free ranges that physical.rs and heap.rs share; `carve` is
--   the split at the end of an allocation, `walk`, `settle` and `merge` the insertion of a freed block.
-- Pmm and its children: crates/kernel-core/src/physical.rs, every operation of `PhysicalMemory`.
-- Heap and its children: kernel/src/mm/heap.rs, `HeapState` and the smoke test `verify`.
-- Frames and its children: crates/kernel-core/src/lib.rs, `FrameAllocator`.
-- Elf and its children: crates/kernel-core/src/elf.rs, `ElfImage::parse` and its readers.
-- PageTables and its children: crates/kernel-core/src/page_tables.rs. Tree holds the walk of an address
--   and the frames of a tree, Ready and Release the loop of `release_tree`, Owned, Fill and Loop that of
--   `clone_table`, Root `clone_root`; Model is a memory of tables that keeps the trait's documentation.
-- UserMemory and its children: kernel/src/arch/memory.rs, `user_range_accessible` and its walk, and
--   kernel/src/mm/mod.rs, `validate_user_range`, `copy_to_user` and `copy_from_user`.
-- Mapping and its children: kernel/src/arch/memory.rs, `PmmFrameAllocator`, `map_user_page`, `map_heap` and
--   `map_mmio`, and kernel/src/mm/mod.rs, `map_mmio`, `allocate_dma` and `verify_physical_memory`. Mmio,
--   HeapMap and Dma hold definitions; Taking is about the frames that are taken, UserPage, Devices,
--   HeapPages, HeapGuards, Regions and Probe about what the operations leave, LoaderSpace about the loader
--   on `map_user_page`.
-- Processes and its children: kernel/src/process.rs. Loader holds `load_image`, Launch
--   `launch_graphical_shell`; Table and Launching are about the process table, Contents and Loading about
--   what is mapped.
-- Psf and its children: crates/kernel-core/src/psf.rs, `Psf2Font`.
-- Tasks and its children: kernel/src/task.rs, every operation on the task table.
-- Bytes and its children: byte slices, little-endian words and the check of UTF-8, which both file
--   systems use.
-- Vfs and its children: crates/kernel-core/src/vfs.rs. Paths holds `normalize_path`, Mounts the trait and
--   the operations of `Vfs`, RamFs the file system in memory, Backends the two implementations.
-- GenericFs and its children: crates/kernel-core/src/genericfs.rs and block.rs. Device holds the trait
--   `BlockDevice`, Codec the on-disk inode, Table the inode table, Extent the placement of files, Ops the
--   operations on contents, Mount `mount` and `format`.
-- Common and its children: Boolean tests, lists over native numbers, words of 64 bits and results.
--
-- State is passed explicitly: an operation takes the state and returns its result beside the state that
-- it leaves, on its error paths as well. `&mut self` is a record, an array with its length a list, a
-- `BTreeMap` a list of its entries, `Result` a data type, and a panic an error of its own. Bytes and words
-- are numbers; sums and differences that can wrap are written with their modulus, and checked operations
-- return an option. A read into a buffer returns the bytes that it copies.
--
-- A loop over a list or over a fixed range is structural recursion. The loops over the bytes of a file
-- and over the Unicode table of a font run on the number of those bytes as fuel: every round moves on by
-- a byte or more. The loop of `FrameAllocator::allocate` runs over the regions that are left.
--
-- The block device is a parameter with the laws of a disk: a sector reads as it was last written, a write
-- changes no other sector and not the size, and a sector has 512 bytes. GenericFs.Memory is a device that
-- keeps them. The timer, the addresses of new stacks and the entry points of tasks are arguments.
--
-- `TableMemory` is a parameter with the laws of its documentation, of which `IsLive` tells the
-- initialised tables. The loader maps pages behind the interface `Processes.Loader.Space`, which
-- Mapping.LoaderSpace fills with `map_user_page`. User code is a function from the kernel's state to an
-- exit code and a state; theorems about a run ask that it leaves the process table alone. The words of the direct map are a function of their addresses. The loop over
-- the pages of a range of addresses, and that over the pages of a segment, run on the number of pages as
-- fuel, and the theorems show that it does not run out.
--
-- The mapper of the x86_64 crate is the parameter `Mapping.Mapper`: a page that it maps is looked up at its
-- frame, the addresses outside the page are looked up as before, a failure changes no lookup, and its
-- frames come from the allocator it is given. The page tables are its own state and not part of the
-- direct map's bytes; addresses are canonical, as the source's types ask.
--
-- Not modelled: the drivers and everything else under kernel/src/arch, which reads and writes ports,
-- device registers and control registers; the boot sequence with `take_ownership`; `init_probe`; the
-- shell; locks and the masking of interrupts, since one processor runs the kernel; the assembly of the
-- context switch, of which the model has the request.
pub mod Common
pub mod Ranges
pub mod Pmm
pub mod Heap
pub mod Frames
pub mod Elf
pub mod PageTables
pub mod UserMemory
pub mod Mapping
pub mod Processes
pub mod Psf
pub mod Tasks
pub mod Bytes
pub mod Vfs
pub mod GenericFs
