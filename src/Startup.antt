-- ===== src/Startup.antt =====
-- run.go: `Application.Run`. Host has the interfaces that the application calls and what a run does
-- to the outside, Fallback the choice of the game's build, Stage the staging of a candidate, Launch
-- the start of the server, Whole the run itself.
pub mod Host
pub mod Trace
pub mod Fallback
pub mod Stage
pub mod Launch
pub mod Whole
mod Samples
mod Tests
