-- ===== src/Base/Table.antt =====
-- A database table as the list of its rows, oldest first, with the queries that the program makes
-- through Prisma: find, update one, update many, count and create. A table is searched by a test on
-- its rows; a query on a unique column is the search for the first row that has the key.
mod Query
pub mod Laws
pub use Query.*
