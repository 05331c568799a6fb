-- ===== src/Lib.antt =====
-- Oryx runs x86-64 guest code on AArch64. A guest basic block in a small IR is translated to position-
-- independent host code (src/liboryxtu), the translated units are kept in a content-addressed cache
-- (src/liboryxcache), and an offline analysis, the memory-class map (src/liboryxmap), says which
-- accesses may skip the ordering that x86 promises.
--
-- Sha256 models src/liboryxcache/sha256.c: a context is its eight state words, its count of bits
-- modulo 2^64 and the used part of its buffer. Wire models the little-endian helpers put_u16 to
-- get_u64 that src/liboryxmap/oryxmap.c and src/liboryxcache/oryxcache.c share.
--
-- MemoryMap models src/liboryxmap/oryxmap.c. MemoryMap/Entries has the types, oryx_mmap_decide and
-- oryx_mmap_lookup; MemoryMap/Format has oryx_mmap_serialize, oryx_mmap_parse,
-- oryx_mmap_verify_identity and oryx_mmap_logical_key; MemoryMap/Classifier has oryx_mmap_classify.
-- The binary search runs on 33 units of fuel: a range of less than 2^32 entries is halved to nothing
-- in that many rounds, and MemoryMap/Search shows it.
--
-- MoveWide is what the architecture's manual says of MOVZ and MOVK, against which Translator/Constants
-- and Runtime/Stubs compare the constants that the emitted code loads.
--
-- Decoder models src/liboryxdec/oryxdec.c: Decoder/Reader has the image, the reads with their guards
-- and decode_modrm; Decoder/Instructions the switch of oryx_x86_decode_block, with its case labels as
-- the type Form; Decoder/Block the loop, whose fuel is one more than the bytes of the image.
-- Decoder/Encoding writes down, independently, how the manual encodes the instructions that the
-- decoder knows, and Decoder/Assembled compares; Decoder/Conditions follows the condition of a branch
-- from x86 to AArch64. An access outside the image is a fault, and so is a loop that runs out of fuel;
-- Decoder/Total shows that there is neither. Offsets into the image do not wrap, since an object in
-- memory is shorter than 2^64 bytes.
--
-- Translator models src/liboryxtu/oryxtu.c over the IR of src/liboryxtu/oryxtu.h, which is Guest.
-- Translator/Encoders has the instruction words; Translator/Emitter the buffers and the macros EMIT,
-- ADD_RELOC and ADD_EXIT as steps on a record of the locals; Translator/Lowering the switch;
-- Translator/Block the hash of a block, the loop and the unit. TransUnit has struct oryx_tu and struct
-- oryx_reloc of src/liboryxcache/oryxcache.h.
--
-- Cache models src/liboryxcache/oryxcache.c: Cache/Format the unit format and the keys, Cache/Store
-- the blobs and the index as two maps from names to bytes, which oryx_cache_put_blob,
-- oryx_cache_get_blob and oryx_cache_resolve read and change; MemoryMap/Cached is the use that
-- oryxmap.c makes of it. Cache/Command models src/liboryxcache/oryxcache_cli.c, less what it prints on
-- the standard error; its loop of reads has one unit of fuel for each byte of the file, since each
-- read gives one or ends it, and Cache/Session shows it. Runtime models the mapping and linking of
-- src/liboryxrun/oryxrun.c: a region is the list of its bytes; Runtime/BlockCache is its table of
-- blocks, whose loops make one probe for each slot, and Runtime/Dispatcher is oryx_run_program, whose
-- loop tests the steps against their limit. It has one unit of fuel more than the limit, and
-- Runtime/Stepping shows that this is enough. Its state has the memory of the guest beside its
-- registers; the fetch reads both, running a block may change both, and what the system answers to
-- mmap, mprotect and realloc may change with the steps. Runtime/Mappings has the same code with its
-- calls of mmap and munmap, counted in the account of Runtime/Regions. Runtime/Decoded follows a block
-- from the bytes of an image through the decoder, the translator and the linker, and
-- Runtime/Refinement compares the dispatcher with one that has no block cache.
--
-- MemModel models src/kmod/oryx_memmodel/oryx_memmodel.c: MemModel/Machine has the handlers as
-- functions of the registers of the cores, the threads that they run, the grants and the notifiers;
-- its enable and disable are the compositions of their parts. MemModel/Interleaving has the parts as
-- events, so that a thread may be preempted between them, and MemModel/Served is about what they
-- reach. MemModel/Device has open, the ioctls and release; MemModel/Client is src/liboryxmm/oryxmm.c,
-- whose system calls run those handlers.
--
-- Profiles models src/liboryxprofile/profile.c: Profiles/Text the strings and the parameter for the C
-- library, Profiles/Format oryx_profile_parse and oryx_profile_serialize, Profiles/Ranking the score,
-- the set and oryx_profile_resolve, Profiles/Env oryx_profile_apply_env. Profiles/Command models
-- src/liboryxprofile/oryxprofile_cli.c, less what it prints on the standard error. A string is the
-- list of its bytes; the code's ORYX_P_ERR, ORYX_P_INVAL and ORYX_P_NOTFOUND are io, inval and
-- notfound.
--
-- Litmus models experiments/phase0-tso-probe/litmus/oryx_litmus.c: Litmus/Harness has a round of each
-- of its threads as a list of instructions, with map_store and map_load, and the count of main.
-- Litmus/Machine is an independent description of a machine with total store order, on which the
-- rounds run; its LDAR waits for the earlier stores of its core, as the architecture orders an LDAR
-- behind an STLR. Each round starts with both variables cleared and nothing left to be stored, as the
-- gates between rounds see to. Litmus/Counts is about the rounds that the machine allows.
--
-- Probe models experiments/phase0-tso-probe/probe/oryx_probe.c: Probe/Registers has the candidates and
-- the accesses of a core to them, Probe/Log the log, Probe/Commands the commands, control_write and
-- oryx_probe_init. The kernel's sscanf, its conversions, the set of online cores and what a register
-- keeps of a written value are a parameter; the mutex makes a write to the file one step. The reading
-- of the log is one call of the kernel and is not modelled.
--
-- Numbers are natural numbers; an integer of w bits is one below 2^w, with its wrap-around written
-- out, and a signed one is its bit pattern. An allocation is a parameter that says whether so many
-- bytes can be had. A return code ORYX_OK with its out parameters is `ok`, another is `err` of its
-- name (Errors). Null arguments are not modelled: the functions reject them before they do anything.
--
-- Not modelled: the trampoline of the runtime, which is a parameter, since it is inline assembly; the
-- registration of the kernel module's device; the demonstration program of src/liboryxmm, which calls
-- the client and prints; the arguments and the gates of oryx_litmus.c; and experiments/perf-probe,
-- which measures hardware.
pub mod Prelude
pub mod Wire
pub mod Sha256
pub mod Errors
pub mod MoveWide
pub mod Guest
pub mod MemoryMap
pub mod TransUnit
pub mod Cache
pub mod Translator
pub mod Runtime
pub mod MemModel
pub mod Decoder
pub mod Profiles
pub mod Litmus
pub mod Probe
