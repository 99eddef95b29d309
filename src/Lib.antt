-- ===== src/Lib.antt =====
-- dis, a disassembler for the 6502 family.
--
-- The program reads an Intel HEX file or an RP6502 ROM, or takes a built-in demo, into a sparse
-- memory, and lists it, either in one sweep or along the control flow from its entry.
-- src/dis.c calls the readers, src/hexfile.c and src/rp6502file.c, which write through `MemWrite` of
-- src/memory.c. The decoder, src/disassemble.c, and the traversal, src/analyze.c, see memory only
-- through a callback to `MemRead`.
--
-- The files, with the code that they model:
--   Cpu            the interface of src/vrEmu6502.h: a handle is a record of two lookups
--   Disassemble    src/disassemble.c: DisInit, DisInstLen, DisOne, DisRange, DisFlowOf; its children
--                  hold the lengths, the buffers, the tiling of a range, what it reads, the flow and
--                  its kinds, and Contract gathers what src/disassemble.h says of lengths,
--                  buffers, ranges and targets
--   Analyze        src/analyze.c: AnalyzeNew, AnalyzeAddEntry, push, AnalyzeRun and the queries; Spec
--                  says what control flow reaches, Inv is the invariant of the loops, Total their
--                  end, Blocks the allocations and AnalyzeFree, and Contract the interface of
--                  src/analyze.h as a record of promises, with Unordered on its entries
--   Memory         src/memory.c: MapROM, MapRAM, MapFill, MapResetVector, MapVectorPage, MemRead,
--                  MemWrite; its children are on mapping, access, validity and the vectors, and
--                  Dump is DumpRegions
--   Libc           what the readers use of the C library: fgets, fread, strtoul, strtol
--   Rp6502file     src/rp6502file.c: Crc is Rp6502Crc32, Parse the lines and numbers, Read
--                  isRp6502File and readRp6502File, Bounds the two address spaces of a chunk, and Load, Rounds,
--                  Finish and Total are on the reader;
--                  Format prints the format of src/rp6502file.h, which Numbers, Headers, PlainLines,
--                  Entries, RoundTrip and Image read back, Stops and Stopped are on what ends the
--                  reading, and Ranges and Describes on the entry
--   Hexfile        src/hexfile.c: readHexFile; Copies is on its two line buffers, Total on every file,
--                  and Format prints records, which
--                  Fields, Columns, Records, Lines, RoundTrip and Image read back, and Ranges is on
--                  the addresses that they take
--   Listing        src/dis.c: printInstruction and printAnalyzed, as pieces that have a text; Pieces
--                  and Covers are on what they cover
--   Main           src/dis.c: parseCpu and main; Prints is the text on stdout and stderr,
--                  CommandLine is on the arguments, ReadBack and Shown on the text of a line, and
--                  Total, Lists, Sweeps, Reassembles, Mapped, Roms and Hexes on whole runs
--   Base           shared names, and lemmas on lists, bits and tables
--   Samples        tests, and the theorems at concrete inputs
--
-- Static variables and pointers to a state are arguments and results. An unsigned integer of w bits
-- is a natural number with its wrap-around written out, and an `int` of hexfile.c is its 32 bits in
-- two's complement. A string is the list of its character codes, without the NUL. What is printed is
-- a value. Whether malloc, calloc and fseek succeed is an argument, as is the outcome of each call
-- of realloc by its number, and what a buffer holds before it is written. The sum of the lengths in
-- a HEX file, an `int` whose overflow C leaves undefined, wraps. An access outside a buffer is `none`.
--
-- Loops that need fuel: the loop of DisRange has its length and 1, since a round takes a byte; a
-- trace of AnalyzeRun 0x10001 rounds, since it goes up; its work list the entries at hand and 0x10001
-- rounds, since an address is queued once; the readers the length of the file and 1, since a line
-- takes a byte; printAnalyzed the range and 1, since a round goes up.
--
-- Not modelled: src/vrEmu6502.c, a copy of another project, whose tables are a parameter; the
-- messages of the readers as texts, which are values instead; the test programs.
pub mod Base
pub mod Libc
pub mod Cpu
pub mod Disassemble
pub mod Analyze
pub mod Memory
pub mod Rp6502file
pub mod Hexfile
pub mod Listing
pub mod Main
mod Samples
