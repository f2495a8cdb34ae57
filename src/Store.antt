-- ===== src/Store.antt =====
-- The tables of app/models that the server and its workers share, with their enumerated columns.
-- Identifiers are only compared, so they are numbers. A time is a count of microseconds (the
-- resolution of Python's datetime). A JSON document that is carried along is its text.
pub mod Enums
pub mod Rows
pub mod Instances
pub mod Statements
pub mod Text
pub use Enums.*
pub use Rows.*
pub use Text.*
pub use Statements.*
pub use Instances.*
