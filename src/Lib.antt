-- ===== src/Lib.antt =====
-- wispy-vm is a virtual machine for Scheme in Rust. This library models its data compression, the
-- virtual machine itself, sets of primitives, devices and file systems, its profiler, and the command that
-- compiles and runs programs.
--
-- The parts of the program:
-- - The crate lzss (lzss/src) compresses bytecode, bytes of seven bits, with a window of 256 bytes, and
--   expands it again. `Lzss` models it: `Lzss.RingBuffer` is ring_buffer.rs, `Lzss.Compress` is
--   compress.rs, `Lzss.Decompress` is decompress.rs, `Lzss.Codec` is the trait of lib.rs. The format of
--   the stream, apart from both iterators, is the relation `Lzss.Encoding.Encodes`.
-- - The crate vm (vm/src) runs bytecode. `Vm.ValueInner` (value_inner/integer63.rs), `Vm.Cons` (cons.rs),
--   `Vm.Value` (value.rs), `Vm.Number` (number.rs) and `Vm.Tags` (type.rs, instruction.rs, stack_slot.rs)
--   are its words; `Vm.Error` is error.rs. `Vm.Memory` is memory.rs: the fields and accesses of a memory,
--   `Vm.Memory.Gc` the garbage collector and allocation, `Vm.Memory.Stack` creation, stack and lists,
--   `Vm.Memory.Text` strings. `Vm.Machine` is vm.rs: the loop and calls, `Vm.Machine.Instructions` the
--   other instructions, `Vm.Machine.Decode` and `Vm.Machine.Integer` the bytecode decoder,
--   `Vm.Machine.Recover` the call of an error handler, `Vm.Arity` the argument counts.
-- - The crate native (native/src) has primitives for speed: `Native.List`, `Native.Equal`,
--   `Native.TypeCheck` and `Native.Arithmetic` are list.rs, equal.rs, type_check.rs and arithmetic.rs,
--   over the memory of the machine.
-- - `Process` (process-context/src), `Time` (time/src) and `Inexact` (inexact/src) are the interfaces and
--   primitives of these crates. `R7rs` (r7rs/src/small.rs) is the primitive set that is made of all of
--   them, `R7rs.Identifiers` (small/primitive.rs) the numbers that its primitives have, `R7rs.Core` what
--   it implements itself, and `Wispy` (wispy/src/primitive_set.rs) puts the primitives of the Cayley table
--   over it.
-- - The crate dynamic (dynamic/src) calls functions of the host. `Dynamic.Table` is the table of the
--   values that Scheme refers to, `Dynamic.Values` is scheme_value.rs, and `Dynamic.Names` and
--   `Dynamic.Primitives` are the primitives of primitive_set.rs. `Engine` (engine/src) puts them beside
--   the primitives of R7RS, and runs a module with both.
-- - The crate file (file/src) has the file systems, of which `File.Memory` is file_system/memory.rs; the
--   crate device (device/src) has input and output, of which `Device.FixedBuffer` is
--   device/fixed_buffer.rs. Both are what a program without an operating system is given. `File.Os` and
--   `File.Libc` are file_system/os.rs and libc.rs, whose open files are a table (`File.Descriptors`), and
--   `Device.Stdio` and `Device.Libc` are device/stdio.rs and the devices of device/libc. The interfaces
--   `Device.Device` and `File.FileSystem` are the traits of device.rs and file_system.rs, and
--   `Device.Primitives` and `File.Primitives` are the primitives (primitive_set.rs) over any of them.
--   `Device.Void`, `Device.ReadWrite`, `Device.Buffer` (device/libc/buffer.rs), `File.Void` and
--   `File.Utility` are the other devices and file systems, and the decoding of paths.
--   `Primitive` is what primitive sets share, from vm/src/primitive_set.rs.
-- - The crate profiler (profiler/src) has the profiler that the machine calls, in `Profiler.StackProfiler`
--   (stack_profiler.rs), and the analysis of what it writes: `Profiler.Stack` and `Profiler.Record` are the
--   records of record/ with their text, `Profiler.Stream` is read.rs, write.rs, reverse.rs and collapse.rs,
--   `Profiler.Duration` is duration.rs and `Profiler.Flamegraph` is flamegraph.rs. `Profiler.Text` and
--   `Profiler.Order` are what they use of the text and the orders of the language. `Profiler.Command` has the
--   analyses of the command (cmd/profile/src/main.rs), which put them together.
-- - The crate compiler (compiler/src) runs the bytecode of the compiler in the machine, in `Compiler`. The
--   command of the crate wispy compiles and runs programs: `Wispy.Program` is wispy/src/lib.rs and
--   main.rs, and `Wispy.Loads` the loads of one source by another.
-- - The compiler itself is the Scheme program compile.scm. Only its encoder of integers is modelled, as the
--   other end of the decoder, in `Vm.Machine.Integer.RoundTrip`, `Vm.Machine.Decode.Numbers` and
--   `Vm.Machine.Decode.Sequence`.
-- The decoder reads its input through the decompressor; the machine and the decoder work on the memory;
-- an instruction that calls a primitive hands the memory to the set of primitives, whose errors the
-- machine hands to the program unless they are critical. The lines that the
-- profiler writes are the records that its analyses read.
--
-- How the code is modelled. A word is a natural number below 2 ^ 64, and wrap-around is written out; an
-- i64 is its bit pattern. A method that changes a memory is a function from the memory to an outcome,
-- which is a result or an error with the memory as it then is. An iterator is its state, and the items
-- that its source still has are a list. A panic of the decompressor is a case of the outcome of `next`. Text is a
-- list of code points. The profiler writes to memory, so that its writer does not fail, and the sums and
-- differences of its times wrap around as they do where overflow is not checked.
-- The model is that of the build without the features for floating point, profiling, asynchronous
-- primitives and collection at each allocation. Debug assertions are left out.
--
-- Bounds and fuel. A structural loop has none. `match_loop` of the compressor is given 129 rounds, one
-- more than the longest match. `collect` of both iterators is given a number of calls of `next` that
-- follows from the length of the input: a call of the compressor consumes a byte or writes one that is
-- pending, and a byte of the compressed stream stands for 128 bytes at most. `scan` of the collector is
-- given one round more than a space has words, since it takes a word in each. `decode_loop` is given as
-- many rounds as there are bytes, since it takes a byte in each. The decoding of a path is given one round more
-- than a path may have bytes. The loads of a source are given a depth of calls, since files that load one
-- another have none that is enough. The loops down lists and the stack, and
-- the loop of the machine, which need not end, take their fuel as a parameter and are `stuck` without it.
--
-- Soundness of a memory (`Vm.Memory.Gc.Sound.IsSound`): its size is a multiple of four words, so that both
-- spaces hold whole cells; what is allocated fits; every word of an allocated cell and every root is a
-- number, an allocated cell, or the null pointer; and no cell has the null pointer in its `car`, which
-- is how the collector marks a cell that it moved.
--
-- Parameters of the model: the set of primitives of the machine with a state of its own, the text of an
-- error, and the branch of `decode_number` that computes with f64; how a file system in memory decodes a
-- path; the clock of the profiler; the reader and the writers of a device; the calls of the operating
-- system and of the C library on files, streams, the time and the process; the map of bounded size that
-- file_system/libc.rs keeps open files in, with its documented laws; the clock, the functions of
-- floating-point numbers and the power of numbers in the primitives of R7RS; the Cayley table; the
-- bytecode of the compiler and the preludes, which are made or included by the build; the paths of the
-- platform, the files and the command line of the command; and what dynamic takes of the crate any-fn: its
-- functions, handles of their values, the state these refer to, and the identities of types.
--
-- Not modelled: the conversions of floating-point numbers in dynamic, the build scripts and macros, the
-- programs that are embedded in a binary (sac), the other commands, bindings and benchmarks, and Display.
pub mod Prelude
pub mod Lzss
pub mod Vm
pub mod Native
pub mod Primitive
pub mod File
pub mod Device
pub mod Profiler
pub mod Process
pub mod Time
pub mod Inexact
pub mod R7rs
pub mod Compiler
pub mod Wispy
pub mod Dynamic
pub mod Engine
