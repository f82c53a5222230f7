-- ===== src/Casir/Release.antt =====
-- The descriptors and mappings that `init` of CASIR takes and `destroy` and the destructors give
-- back.
use sim_library_v.Prelude.{ℕ, ◌≡◌, ◌≢◌, ◌⊎◌, true, false, none, some, ◌++◌, String, arith}
use sim_library_v.Os.{Ledger, enter_all, give_back}
use sim_library_v.Cache.Info.{CacheInfo}
use sim_library_v.Casir.Config.{Config}
use sim_library_v.Casir.Header.{Segment, casir_magic}
use sim_library_v.Casir.Writer
use sim_library_v.Casir.Reader

-- For a new reader: `init`, whatever its system calls answer and whatever header it finds, and
-- the destructor release what was acquired, each thing once, and nothing else.
pub casir_reader_releases :
    (a : Reader.Answers) (info : CacheInfo) (name : String) (max : ℕ) (config : Config)
    (s : Segment) (l : Ledger)
    → let i = Reader.init a (Reader.new info name max config) s in
      enter_all (i.calls ++ Reader.drop i.reader) l ≡ some l
unfolding Reader.init Reader.new Reader.drop enter_all Reader.init_opened Reader.init_stat
    Reader.init_huge Reader.init_regular Reader.init_checked
casir_reader_releases a info name max config s l = ground arith

-- A new reader whose `init` maps an object with another magic number unmaps it and returns
-- false, but keeps the pointer to its header: `getStats` then reads through it.
pub stats_after_failed_init :
    (a : Reader.Answers) (info : CacheInfo) (name : String) (max : ℕ) (config : Config)
    (s : Segment) (fd size base : ℕ)
    → a.opened ≡ some fd
    → a.stat ≡ some size
    → a.huge_mapped ≡ none
    → a.mapped ≡ some base
    → s.header.magic ≢ casir_magic
    → let i = Reader.init a (Reader.new info name max config) s in
      (i.result ≡ false)
      × (Reader.read i.reader s max ≡ some (none, i.reader))
      × (Reader.get_stats i.reader s ≡ none)
unfolding Reader.init Reader.new Reader.init_opened Reader.init_stat Reader.read Reader.init_huge
    Reader.init_regular Reader.init_checked Reader.get_stats
stats_after_failed_init a info name max config s fd size base e f g h k = ground arith

-- After an `init` of a new writer that returns true, `destroy` gives back what was acquired, the
-- mapping and the descriptor, and nothing else; so too where the object could not be opened.
pub casir_writer_releases :
    (a : Writer.Answers) (info : CacheInfo) (name : String) (max : ℕ) (config : Config)
    (s : Segment) (i : Writer.Init) (l : Ledger)
    → Writer.init a (Writer.new info name max config) s ≡ some i
    → (i.result ≡ true) ⊎ (a.opened ≡ none)
    → enter_all (i.calls ++ (Writer.destroy i.writer).1) l ≡ some l
unfolding Writer.init Writer.new Writer.destroy enter_all Writer.init_opened Writer.init_truncated
    Writer.init_huge Writer.init_regular Writer.init_mapped
casir_writer_releases a info name max config s i l e h = ground arith

-- Where `init` of a new writer fails after it opened the object with a descriptor that was not
-- open before, it closes the descriptor but keeps its number, and `destroy` closes it again: it
-- closes a descriptor that is not held.
pub casir_failed_init_closes_twice :
    (a : Writer.Answers) (info : CacheInfo) (name : String) (max : ℕ) (config : Config)
    (s : Segment) (i : Writer.Init) (fd : ℕ) (l : Ledger)
    → Writer.init a (Writer.new info name max config) s ≡ some i
    → i.result ≡ false
    → a.opened ≡ some fd
    → give_back fd l.fds ≡ none
    → (enter_all i.calls l ≡ some l) × (enter_all (i.calls ++ (Writer.destroy i.writer).1) l ≡ none)
unfolding Writer.init Writer.new Writer.destroy enter_all Writer.init_opened Writer.init_truncated
    Writer.init_huge Writer.init_regular Writer.init_mapped
casir_failed_init_closes_twice a info name max config s i fd l e h f k = ground arith

-- After the move construction from a writer or a reader, the destructors of the new object and of
-- what is left release what `init` acquired, each thing once.
pub casir_moves_release :
    (a : Writer.Answers) (b : Reader.Answers) (info : CacheInfo) (name left : String) (max : ℕ)
    (config : Config) (s : Segment) (i : Writer.Init) (l : Ledger)
    → Writer.init a (Writer.new info name max config) s ≡ some i
    → i.result ≡ true
    → let (new_writer, old_writer) = Writer.move left i.writer in
      let j = Reader.init b (Reader.new info name max config) s in
      let (new_reader, old_reader) = Reader.move left j.reader in
      (enter_all (i.calls ++ (Writer.destroy old_writer).1 ++ (Writer.destroy new_writer).1) l
        ≡ some l)
      × (enter_all (j.calls ++ Reader.drop old_reader ++ Reader.drop new_reader) l ≡ some l)
unfolding Writer.init Writer.new Writer.destroy enter_all Writer.init_opened Writer.init_truncated
    Writer.init_huge Writer.init_regular Writer.init_mapped Writer.move Reader.init Reader.new
    Reader.drop Reader.init_opened Reader.init_stat Reader.init_huge Reader.init_regular
    Reader.init_checked Reader.move
casir_moves_release a b info name left max config s i l e h = (ground arith, ground arith)
