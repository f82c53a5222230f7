-- ===== src/Sim/Lifecycle.antt =====
-- What `init` takes it gives back: descriptors and mappings over the life of a writer and a
-- reader.
use sim_library_v.Prelude.{ℕ, ◌≡◌, Bool, some, ◌++◌, String, arith}
use sim_library_v.Os.{Ledger, enter_all}
use sim_library_v.Sim.Header.{Segment}
use sim_library_v.Sim.Writer
use sim_library_v.Sim.Reader

-- For a new writer: whatever the system calls of `init` answer, `init` and then `destroy` and
-- the destructor release what was acquired, each thing once, and nothing else.
pub writer_lifecycle :
    (a : Writer.Answers) (name : String) (max : ℕ) (checked : Bool) (s : Segment) (l : Ledger)
    → let i = Writer.init a (Writer.new name max checked) s in
      let (w, calls) = Writer.destroy i.writer in
      enter_all (i.calls ++ (calls ++ Writer.drop w)) l ≡ some l
unfolding Writer.init Writer.new Writer.destroy Writer.drop enter_all
writer_lifecycle a name max checked s l = ground arith

-- For a new reader: `init`, whatever its system calls answer and whatever header it finds, and
-- the destructor release what was acquired, each thing once, and nothing else.
pub reader_lifecycle :
    (a : Reader.Answers) (name : String) (max : ℕ) (s : Segment) (i : Reader.Init) (l : Ledger)
    → Reader.init a (Reader.new name max) s ≡ some i
    → enter_all (i.calls ++ Reader.drop i.reader) l ≡ some l
unfolding Reader.init Reader.new Reader.drop enter_all
reader_lifecycle a name max s i l ran = ground (arith, ran)

-- Ownership moves: after the move construction of a writer from one that `init` made, the
-- destructors of both objects together release what was acquired once; so too with a reader.
pub move_lifecycle :
    (a : Writer.Answers) (b : Reader.Answers) (name left : String) (max : ℕ) (checked : Bool)
    (s t : Segment) (j : Reader.Init) (l : Ledger)
    → Reader.init b (Reader.new name max) t ≡ some j
    → let i = Writer.init a (Writer.new name max checked) s in
      let (w, other) = Writer.move left i.writer in
      let (r, other_r) = Reader.move left j.reader in
      (enter_all (i.calls ++ (Writer.drop other ++ Writer.drop w)) l ≡ some l)
      × (enter_all (j.calls ++ (Reader.drop other_r ++ Reader.drop r)) l ≡ some l)
unfolding Writer.init Writer.new Writer.move Writer.drop Reader.init Reader.new Reader.move
    Reader.drop enter_all
move_lifecycle a b name left max checked s t j l ran = (ground arith, ground (arith, ran))
