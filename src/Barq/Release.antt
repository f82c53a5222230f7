-- ===== src/Barq/Release.antt =====
-- The descriptors and mappings that `init` of BARQ takes and `destroy` and the destructors give
-- back.
use sim_library_v.Prelude.{ℕ, ◌≡◌, ◌⊎◌, Bool, true, false, none, some, ◌++◌, String, arith}
use sim_library_v.Os.{Ledger, enter_all, give_back}
use sim_library_v.Barq.Header.{Segment}
use sim_library_v.Barq.Writer
use sim_library_v.Barq.Reader

-- After an `init` of a new writer that returns true, `destroy` gives back what was acquired, the
-- mapping and the descriptor, and nothing else; so too where the object could not be opened.
pub destroy_releases :
    (a : Writer.Answers) (name : String) (max : ℕ) (huge : Bool) (s : Segment) (l : Ledger)
    → ((Writer.init a (Writer.new name max huge) s).result ≡ true) ⊎ (a.opened ≡ none)
    → let i = Writer.init a (Writer.new name max huge) s in
      enter_all (i.calls ++ (Writer.destroy i.writer).1) l ≡ some l
unfolding Writer.init Writer.new Writer.destroy enter_all Writer.init_opened Writer.init_truncated
    Writer.init_huge Writer.init_fallback Writer.init_mapped
destroy_releases a name max huge s l h = ground arith

-- Where `init` of a new writer fails after it opened the object with a descriptor that was not
-- open before, it closes the descriptor but keeps its number, and `destroy` closes it again: it
-- closes a descriptor that is not held.
pub failed_init_closes_twice :
    (a : Writer.Answers) (name : String) (max : ℕ) (huge : Bool) (s : Segment) (fd : ℕ) (l : Ledger)
    → (Writer.init a (Writer.new name max huge) s).result ≡ false
    → a.opened ≡ some fd
    → give_back fd l.fds ≡ none
    → let i = Writer.init a (Writer.new name max huge) s in
      (enter_all i.calls l ≡ some l) × (enter_all (i.calls ++ (Writer.destroy i.writer).1) l ≡ none)
unfolding Writer.init Writer.new Writer.destroy enter_all Writer.init_opened Writer.init_truncated
    Writer.init_huge Writer.init_fallback Writer.init_mapped
failed_init_closes_twice a name max huge s fd l h e f = ground arith

-- For a new reader: `init`, whatever its system calls answer and whatever header it finds, and
-- the destructor release what was acquired, each thing once, and nothing else.
pub reader_releases :
    (a : Reader.Answers) (name : String) (max : ℕ) (s : Segment) (l : Ledger)
    → let i = Reader.init a (Reader.new name max) s in
      enter_all (i.calls ++ Reader.drop i.reader) l ≡ some l
unfolding Reader.init Reader.new Reader.drop enter_all
reader_releases a name max s l = ground arith
