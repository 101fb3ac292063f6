-- ===== src/Store.antt =====
-- The database of the platform (prisma/schema.prisma) and what a service method is.
-- `Db` holds the tables that the modelled services read and write, each with the columns that they
-- use. A method is a function of the database: it returns or throws, and what it has written stays
-- written unless it runs under `with_transaction` (src/common/prisma/prisma.service.ts).
pub mod Rows
mod Methods
unfoldable pub use Methods.*
