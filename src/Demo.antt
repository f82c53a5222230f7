-- ===== src/Demo.antt =====
-- The programs of examples/: writers and readers that publish and take numbered frames. What they
-- print is a list of lines; a signal, the clock and the state of the segment at each look are
-- arguments.
pub mod Frame
pub mod Simple
pub mod Sahm
mod Tests
