-- ===== src/Db/Server.antt =====
-- The repository server as the program's SQL sees it: the log of runs, the fact tables, one open
-- transaction, and a world that decides which calls fail and what the clock shows.
mod State
mod Calls
pub mod Keeps
pub use State.*
unfoldable pub use Calls.*
