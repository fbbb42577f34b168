-- ===== src/Database.antt =====
-- The tables that the services share (packages/db/src/index.ts): the status enumerations, the
-- columns of each table that the modelled code reads or writes, and the database as one record.
-- A UUID is a number, a timestamp a number of seconds, a JSON column a text.
mod Status
mod Rows
unfoldable pub use Status.*
unfoldable pub use Rows.*
