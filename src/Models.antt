-- ===== src/Models.antt =====
-- The tables of persistence/models.py, as records. A text is its code points; a UUID, a ULID and an
-- instant (in microseconds) are numbers; a status column is the enumeration that its comment lists.
mod Core
mod Events
mod Bank
mod Pos
pub use Core.*
pub use Events.*
pub use Bank.*
pub use Pos.*
