-- ===== src/Lib.antt =====
-- Viua VM: a register-based virtual machine with its bytecode, kernel and value types. This
-- library models six parts of it and proves what makes them correct.
--
-- Bits is src/types/bits.cpp, the values of fixed width. `Bits.Vector` has the helpers on
-- `std::vector<bool>` (a list whose head is bit 0), `Bits.Shift` has `binary_shl` and
-- `binary_shr` with their loops, `Bits.Wrapping`, `Bits.Checked` and `Bits.Saturating` have
-- the three namespaces of arithmetic, and `Bits.Class` has the class `Bits`, whose methods
-- return the new object. `Bits.Value` and `Bits.Signed` say which number a vector stands for.
-- Kernel is src/kernel/registerset.cpp with `Register` and `Register_set`. Values are those of a
-- parameter, or references, which share a store of cells (`rebind` of src/types/reference.cpp).
-- `Kernel.Calls` is any sequence of calls of the methods of one set.
-- A call that throws is an `Outcome` with the exception.
-- Arch is new/src/arch/arch.cpp and new/src/arch/ops.cpp, the accesses to registers and the eight
-- instruction formats of the new machine, as numbers of 16 and 64 bits whose shifts wrap, and the
-- texts of the opcodes (`Arch.Names`).
-- Codec is src/bytecode/codec/main/encoder.cpp and decoder.cpp, the operands of the main bytecode
-- as bytes of memory. The instructions of the machine take register accesses from this codec,
-- look them up in a `Register_set`, and call the methods of `Bits` on what they find.
-- Process is src/process.cpp and src/process/: `Process.Frames`, `Process.Prepared` and
-- `Process.Unwinding` are src/process/stack.cpp, `Process.Places` is how register operands name registers,
-- `Process.Calls`, `Process.Parameters`, `Process.Registers` and `Process.Blocks` are the instructions in
-- src/process/instr, `Process.Tick` is `dispatch` and `Process::tick`, `Process.Life` the constructor,
-- `start`, and the steps from one state of a process to the next, and `Process.Code` the tables of entry
-- points in src/kernel/kernel.cpp. Frames, try frames and stacks are objects at addresses, which a process
-- counts up; a stack lists the addresses of its frames, the back first. Actions on a process are a monad
-- of state and faults (`Process.Action`): an exception, which a tick catches, a text that is thrown,
-- `std::out_of_range`, and undefined behaviour such as an access through null. Instructions take
-- their operands decoded. A frame's register sets are those of Kernel.
-- Types is src/types/vector.cpp, the vectors of values: an index is an integer, counted from the back
-- where it is negative, and an iterator outside of the vector is a fault.
--
-- Loops on an index are recursions on the rounds left. The loop of the division is a recursion on
-- fuel: 2 ^ width rounds, which are enough because the remainder falls in each of them. The
-- multiplications of `Bits.Checked` and `Bits.Saturating` call themselves on absolute values; their
-- fuel bounds that depth. Widths of vectors are unbounded; the theorems on shifts to the left
-- assume at most 2 ^ 63 bits, since the source computes indices in `size_t`, which wraps.
--
-- Not modelled: the counters of references and the destruction of objects, the texts that
-- `to_string` makes of whole instructions, the byte layout of a `double` beyond its 64 bits, hosts that
-- are not little-endian, and the parts of the machine named in no file here (schedulers, the assembler,
-- loading, input and output). Of processes: function values and closures, throw points, messages,
-- waiting for other processes, the watchdog, tracing, and the instructions that read values through
-- pointers; a call of a foreign function ends with the process suspended, and the scheduler wakes it.
pub mod Common
pub mod Bits
pub mod Arch
pub mod Codec
pub mod Kernel
pub mod Examples
pub mod Process
pub mod Types
