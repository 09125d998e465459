-- ===== src/Shell.antt =====
-- shlab/tsh.c, a shell with job control.
pub mod Job
pub mod State
pub mod Parse
pub mod Command
pub mod Loop
mod Tests
