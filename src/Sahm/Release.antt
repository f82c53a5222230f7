-- ===== src/Sahm/Release.antt =====
-- The descriptors and mappings that `init` of SAHM takes and `destroy` and the destructors give
-- back.
use sim_library_v.Prelude.{ℕ, ◌≡◌, some, ◌++◌, String, arith}
use sim_library_v.Os.{Ledger, enter_all}
use sim_library_v.Sahm.Ring.{Ring}
use sim_library_v.Sahm.Control.{Control}
use sim_library_v.Sahm.Reader
use sim_library_v.Sahm.Writer

-- For a new SAHM writer: `init`, whatever its system calls answer, and `destroy`, which the
-- destructor calls, release what was acquired, each thing once, and nothing else, where no
-- reader was discovered in between.
pub ring_writer_releases :
    (a : Writer.Answers) (channel : String) (max : ℕ) (c : Control) (l : Ledger)
    → let i = Writer.init a (Writer.new channel max) c in
      enter_all (i.calls ++ (Writer.destroy i.writer).1) l ≡ some l
unfolding Writer.init Writer.new Writer.destroy enter_all Writer.init_opened Writer.init_mapped
    Writer.init_truncated Writer.detach_all
ring_writer_releases a channel max c l = ground arith
