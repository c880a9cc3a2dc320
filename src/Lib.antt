-- ===== src/Lib.antt =====
-- axKernel: a model of the kernel's core and theorems about it.
--
-- The kernel is a small AArch64 kernel in C. Its managers are singletons at fixed addresses; they call
-- each other directly. A process is made by the process manager out of a page table from the kernel
-- heap and memory from the memory manager; the ready processes are byte queues of ids; files are
-- control blocks that a B+ tree of hashed names leads to.
--
-- Which file models which part:
--   Prelude     Boolean tests, lists indexed by native numbers, machine words, bits, tables of
--               finitely many cases, results that may be undefined, counting loops that write to a
--               memory, signed numbers as differences, and numbers and strings as bytes.
--   Queue       `queue` of src/tools/dstruc.c: the byte ring buffer.
--   Stack       `stack` of src/tools/dstruc.c.
--   Hash        src/tools/hash.c: FNV-1a and djb2 on 64 bits.
--   Heap        src/global/alloc.c: the first-fit kernel heap, as headers in a memory, and as a list of
--               chunks in address order (Heap.Layout), between which Heap.Laws relates.
--   Memory      src/manage/mm.c and src/manage/exmm.c, with `cnt` of include/tools/_asm.h: the map of
--               two-bit entries.
--   File        src/manage/fm.c: control blocks, directories, and the bytes of files (File.Data). The
--               tree is the record of operations `Bpt`, of which nothing is assumed; the heap that the
--               two trees share, and a NULL root, are left out there.
--   Tree        src/tools/fs.c: the B+ tree of hashed names over nodes from Heap: search (Tree), insertion
--               (Tree.Grow) and deletion (Tree.Shrink).
--   Proc        src/manage/pm.c, src/manage/expm.c and `schedule_proc` of src/global/meta.c. Proc.Create
--               uses Heap and Memory, the ready queues are those of Queue.
--   Syscall     src/handler/syscall.c: the calls on the state of all the managers (Syscall.System,
--               Transfer, Calls) and the table (Table). Syscall.Stable is the one induction over the calls
--               that Mailbox and Descriptors use.
--   Exception   src/handler/sync.c: the dispatch of exceptions.
--   Text        src/global/io.c: strings, numbers and the line editor `gets`.
--   Graphics    src/manage/gm.c: drawing, the clipboard, and `gm_line` (Graphics.Line), with the exchange
--               of the framebuffers in `gpu_resource_flush` of src/tools/vgpu.c: `pixel` is a word of the
--               back buffer, to which the code draws, `shown` one of the front buffer, which is on the
--               screen. The answer of the device is a parameter.
--   Loader      src/global/meta.c: the ELF loader on the bytes of the memory, whose header is read once
--               at the start (a segment that overwrites the header is not covered), and `mata_exec_file`
--               (Loader.Exec) over File, Proc.Create and Memory.
--   Device      src/manage/dm.c: the table of devices.
--   Keyboard    src/tools/vhid.c: from key events to characters, and the ring in which they wait, with the
--               FIFO that it is (Keyboard.Fifo).
--   Virtio      src/tools/virtio.c: the registers of a device (Virtio.Registers), which is the parameter
--               `Mmio`, and the rings of a queue (Virtio.Layout).
--   Network     src/manage/nm.c with `nm_init` of src/frm/net.c: frames, and the cache of those received. The
--               buffer of nm.c and the one that the device fills are two.
--   DeviceTree  src/global/dtb.c: the reader of the device tree, on the bytes of the memory. The
--               format of such a tree (DeviceTree.Layout) and what its nodes say (DeviceTree.Nodes) are
--               stated without the helpers of the reader.
--
-- How the code is translated. A struct is a record and a pointer into an array is an index, with `none`
-- for NULL; an operation takes the state and returns its answer with the new state. A value of a w-bit
-- type is a number, and the wrap-around is written at each place where the code can reach it; C
-- bit-fields are remainders by their width. Where C leaves the effect undefined, as on a write past an
-- array, the model returns `none`. Output for debugging is left out.
--
-- Loops. The loops over a list or a count are structural. The walk of `heap_alloc` runs on fuel, one
-- more than the number of bytes of the heap; a valid heap has fewer blocks than bytes, so the walk ends
-- before (Heap.Laws). The loop of `mm_creat` runs on the number of units left, and each round takes at
-- least one. The walks of Tree run on fuel that bounds the levels of a walk down and of a climb; one
-- more than the levels above the leaves is enough for a walk down (Tree.Walk). The loop of `gm_line`
-- has one step of fuel more than there are rows and columns between the points (Graphics.Line.Between).
-- The loop over the device tree runs on fuel, one for each token (DeviceTree.Tokens).
--
-- The halving of the size of a queue has fuel for nine rounds, which take 256 to 0 (Virtio.Layout).
-- The wait of l2_send takes the 10000000 rounds of the code.
--
-- Not modelled: the interrupts (src/handler/irq.c, gic.c), `proc_turn` of src/global/meta.c, the text
-- console of src/global/io.c, the setup of the devices (src/tools/device.c but for `uart_dev_write`), the
-- drivers (src/tools/vblk.c, vgpu.c but for the exchange of the framebuffers, the devices of vhid.c, vnet.c,
-- vsnd.c), the shell and frames (src/frm), the boot code and the font.
pub mod Prelude
pub mod Queue
pub mod Stack
pub mod Hash
pub mod Heap
pub mod Memory
pub mod File
pub mod Tree
pub mod Proc
pub mod Syscall
pub mod Exception
pub mod Text
pub mod Graphics
pub mod Loader
pub mod Device
pub mod DeviceTree
pub mod Keyboard
pub mod Virtio
pub mod Network
