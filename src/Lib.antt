-- ===== src/Lib.antt =====
-- A verification library for the SIM shared-memory transports.
--
-- The program moves frames from one writer process to readers through POSIX shared memory. SIM
-- (include/sim.hpp, src/sim.cpp) keeps two buffers behind a header and copies frames in and out;
-- BARQ (include/barq.hpp, src/barq.cpp) hands out pointers into its two buffers, copies with
-- streaming stores and may use huge pages; SAHM (include/sahm.hpp, src/sahm.cpp) pushes frames
-- into ring buffers that the readers register; CASIR (include/casir.hpp, src/casir.cpp) is a
-- variant of SIM with statistics and zero-copy access. src/sim.cpp also has a C interface over two
-- global objects.
--
-- Files:
--   Prelude, Prelude/*   names of the libraries, tests on numbers, lists over the native numbers,
--                        32- and 64-bit words with their wrap-around, signed clock readings.
--   Bits, Bits/Step      facts on masks and exclusive or that Align and Sim/Checksum use.
--   Memory, Memory/*     the bytes of a mapping, pointers as offsets, copies that fault outside the
--                        mapping; Stores has single stores that become visible in part and in any
--                        order, and the moments at which another process looks.
--   Os                   the system calls as a log, and a ledger of open descriptors and mappings.
--   Align, Align/*       alignUp of src/barq.cpp, alignToCacheLine of src/sim.cpp, alignToHugePage
--                        of src/cache_utils.cpp.
--   Heartbeat, Heartbeat/*  the test that isWriterAlive makes in the four readers.
--   Cache, Cache/*       src/cache_utils.cpp: the detection of huge pages and the decision for them
--                        (Cache), the sizes of the caches (Info), the nodes (Numa).
--   Channel              what SIM, BARQ and CASIR promise: the last frame published, with its number.
--   Transport, Transport/*  the interface of these three: a record of operations and laws, sessions
--                        of calls on it, the loops of readWithTimeout (Wait) and how they end (Rounds).
--                        Sim/Session, Barq/Session, Casir/Session and Capi/Session fill the record.
--   Interchange          the three transports against each other.
--   Sim, Sim/*           Header (layout), Checksum (calculateChecksum), Writer and Reader (the two
--                        classes, one function per method); the other files hold proofs: Valid (the
--                        invariant), Write, Read, Roundtrip, Init, Lifecycle, Session; Stores takes
--                        write apart into single stores, Overlap has a read during them; Corruption
--                        is about bytes that differ from those written; and Wait has readWithTimeout.
--   Barq, Barq/*         Header, Copy (ntMemcpy), Writer, Reader, as for SIM; Valid, Write, Read, Init,
--                        Release hold proofs; Stores and Overlap are as for SIM.
--   Sahm, Sahm/*         Ring (ring buffer and one store of a frame), Control (control channel and
--                        registration), Writer and Reader (DirectWriter, DirectReader); History
--                        (the invariant), Latest, Delivery, Shape, Repeat, Stores, InPlace, Register,
--                        Release, Start hold proofs. Membership is the step relation of readers that come
--                        and go, and of writes.
--   Casir, Casir/*       Header, Config (SiCConfig and SiCStats of include/cache_utils.hpp), Writer,
--                        Reader, Wait (readWithTimeout), as for SIM; Valid, Write, Read, ZeroCopy,
--                        Init, Alive, Release, Session hold proofs.
--   Capi, Capi/*         the functions of SIM::C_API of src/sim.cpp; Session and Release hold proofs.
--   Demo, Demo/*         the programs of examples/: Frame (what they fill in and read out), Simple
--                        (simple_writer.cpp, simple_reader.cpp), Sahm (sahm_writer.cpp,
--                        sahm_reader.cpp), each `main` with its loops; Run is the two programs side
--                        by side; Steps, Looks, Whole, Connect, Main and ReaderMain hold proofs.
--
-- Correspondence. A method takes the object and the segment and returns them anew, with the calls
-- it makes of the system; `none` is undefined behaviour: a null pointer read, an index outside an
-- array, a copy outside the mapping. What a system call or the clock answers is an argument (the
-- records `Answers`). A descriptor is `none` for -1. Integers are natural numbers with the
-- wrap-around of their type written out; clock readings are integers, whose differences are taken
-- not to overflow. A segment is its size, its header as a record, and its bytes. `memcpy` and
-- `memset` of the headers are stores into the record. A reader of SIM faults where it reads the
-- header of an object that is shorter; those of BARQ and CASIR map the size that `fstat` gives, and
-- the control channel of SAHM is taken to have its full size.
--
-- Loops are structural recursion over the bytes, the chunks, the slots or the readers left. The
-- loops of readWithTimeout take fuel, one unit for each round; a round for each tick until the clock
-- passes the timeout is enough. What the clock says and what the segment holds in a round are
-- functions of its number. In SAHM the ring buffers are objects by number, slots are found by the
-- offset of their first byte, and a frame that would leave its slot is a fault; the three arrays of
-- the control channel are one list.
--
-- In the programs of examples/ a signal ends a list of rounds, each with what the clocks say and what
-- the other side has left; the lines that they print are values.
--
-- A write and a read that overlap: the stores of `write` before the release of the front index may
-- become visible in part, in any order and more than once; each load of the reader, the copy's byte
-- by byte, sees what is visible at a moment of its own. Of the order of loads only what
-- acquire and release say is used: a load after one that saw the release sees all stores.
--
-- Not modelled: the reading of /sys and /proc as text in src/cache_utils.cpp; the calls of
-- prefetchRange by CASIR, which change no state; a read that overlaps two writes, which SIM, BARQ
-- and CASIR do not guard against; torn loads and stores of one field, which the atomics exclude;
-- examples/turbo_writer.cpp and examples/turbo_reader.cpp, whose header and classes are not in the
-- repository.
pub mod Align
pub mod Barq
pub mod Bits
pub mod Cache
pub mod Capi
pub mod Casir
pub mod Channel
pub mod Demo
pub mod Heartbeat
pub mod Interchange
pub mod Memory
pub mod Os
pub mod Prelude
pub mod Sahm
pub mod Sim
pub mod Transport
