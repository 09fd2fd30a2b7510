-- ===== src/Lib.antt =====
-- RorthOX, a 32-bit protected-mode kernel in C: models of its core and the theorems about them.
--
-- Parts and files. Each module names the source file it follows.
--   Heap       kernel/memory/heap/heap.c and kheap.c. heap_malloc is `malloc`, heap_free is `free`,
--              the table of entries is a list; kheap.c is `kheap_init`, `kmalloc`, `kzalloc`, `kfree`.
--   Memory     kernel/memory/memory.c: memset, memcpy and memcmp on a byte memory, which kzalloc uses.
--   Keyboard   kernel/keyboard/keyboard.c: the queue of a process, keyboard_push and keyboard_pop.
--              Keyboard.Classic is kernel/keyboard/classic.c: the PS/2 interrupt handler, which pushes
--              what it decodes.
--   Strings    kernel/string/string.c. Strings.Numbers is itoa and atoi, Strings.Format is vsnprintf;
--              Strings.Format.Rules and Strings.Format.Numerals say which text a format stands for.
--   Disk       kernel/disk/streamer.c, over a record of the sector operations of disk.c
--              (`BlockDevice`) and what they promise of the bytes on the disk (`Media`). Disk.Ata is
--              kernel/disk/disk.c: the ATA driver over the port instructions (`Ports`), with the
--              state of the hardware passed on; `ata_device` is its one-sector interface.
--              Disk.Ata.Emulated is an ATA drive behind the ports, and Disk.Ata.Served shows that
--              `ata_device` over it keeps the promises, and reads every sector of a 28-bit number;
--              Disk.Ata.RoundTrip reads back what was written.
--              The runs and instances of Disk and Fat16 are over this driver and this drive.
--   Paths      kernel/fs/pparser.c, which asks the kernel heap for its nodes: the outcome of each
--              kzalloc is given in advance, and the live allocations are counted.
--   Files      kernel/fs/file.c: file_validate_path, the table of descriptors and the calls on a
--              file, over a record of the operations of a file system (`FileSystem`). An open parses
--              its path with Paths, whose heap also gives the descriptors.
--   Fat16      kernel/fs/fat/fat16.c over the streams of Disk: the geometry of a volume, the table of
--              clusters and the reads of a file. Fat16.Descriptor is the calls on an open file;
--              Fat16.Update is the chain of a file and the search for free clusters, as a write
--              starts, with a kzalloc that is that of Paths; Fat16.Update.Entries writes entries of
--              the tables and releases a chain, with the flush of the device.
--   Elf        kernel/loader/formats/elfloader.c: the checks of a file in memory, the memory of its
--              segments, over the heap of Paths, and their release.
--   Processes  kernel/task/process.c: which user memory a process owns, and its handles, each of
--              which stands for a descriptor of Files.
--   Tasks      kernel/task/task.c: the list of tasks, the choice of the next one, sleep and waking.
--              Tasks.Copy is the copy of bytes from and to user memory, by what Processes says that
--              the process owns and Paging translates.
--   Paging     kernel/memory/paging/paging.c: the address arithmetic, and the entries of a directory
--              and its tables in a word memory.
--   Status     include/rorthox/status.h: the error codes.
--   Prelude    lists with C's indices, Boolean tests, the lemmas that the parts share.
--
-- Conventions. Numbers are natural numbers; a 32-bit pattern keeps its wrap-around (`u32`). Arrays
-- and strings are lists: a write out of bounds changes nothing, the end of a string or a byte 0 is
-- its NUL. State is passed explicitly. A signed result is an integer or a `Result`.
--
-- Bounds. itoa has 11 rounds, for the 11 bytes before the NUL; a number of vsnprintf has the 32
-- slots of its array; the loop over a format has a round for each character, the loops of the
-- streamer and the loop of a FAT16 read one for each byte, the loop of the path parser one for each
-- byte and one more: a round of each takes at least one of them. The search for free clusters has
-- a round for each writable one, the loop over a chain as many as the place reserved for it has
-- entries. The loops over the list of tasks have as many rounds as there are tasks, and a pass over
-- user memory as many as there are bytes; the waits for the drive have the limits of the source.
-- The counters of the keyboard queue wrap at 32 bits. The
-- table of a heap has fewer than 2 ^ 31 entries.
--
-- Not modelled: the drive behind the ports, but for that of Disk.Ata.Emulated; the buffer after a
-- read that fails, and null pointers that only a caller inside the kernel could pass; making and
-- freeing a page directory; registers of tasks, and their copies of strings and paths; loading,
-- memory and end of a process; the directories of FAT16, and the mount, opening, creating and
-- writing of its files; the calls that load an ELF file; system calls, interrupt tables, boot code
-- and user programs.
mod Prelude
pub mod Status
pub mod Strings
pub mod Memory
pub mod Heap
pub mod Keyboard
pub mod Disk
pub mod Paths
pub mod Paging
pub mod Tasks
pub mod Files
pub mod Fat16
pub mod Elf
pub mod Processes
