-- ===== src/Sahm/Tests/Members.antt =====
-- A reader that joins a new channel.
use sim_library_v.Prelude.{◌≤◌, ◌≡◌, ◌↔◌, refl, none, [], ◌∷◌}
use sim_library_v.Sahm.Control.{claim, max_readers}
use sim_library_v.Sahm.Reader
use sim_library_v.Sahm.Writer
use sim_library_v.Sahm.Membership.{System, Reach, here, next, join}
use sim_library_v.Sahm.Membership.Invariant.{membership}
use sim_library_v.Sahm.Tests.{ring}
use sim_library_v.Sahm.Tests.Channel.{control, reader_answers, writer_answers}

abbrev start : System
start = record {
  control = (Writer.init writer_answers (Writer.new "/cam" 4) control).control;
  readers = [];
}

abbrev joined : Reader.Init
joined =
    Reader.init (λ s. s) reader_answers (Reader.new "/cam" "/cam_reader_7" 4 2) start.control ring

abbrev one_reader : System
one_reader = record { control = joined.control; readers = joined.reader ∷ [] }

join_runs : Reach start one_reader
unfolding Writer.init Writer.new Reader.init Reader.new claim
join_runs =
    next here (join start (λ s. s) reader_answers "/cam" "/cam_reader_7" 4 2 ring joined refl refl)

membership_example :
    (one_reader.control.num_readers ≡ 1)
    × (1 ≤ max_readers)
    × ((claim "/b" 2 0 one_reader.control.entries ≡ none) ↔ (1 ≡ max_readers))
unfolding Writer.init Writer.new
membership_example = membership writer_answers "/cam" 4 control one_reader "/b" 2 refl join_runs
