-- ===== src/Database.antt =====
-- src/ra-additionals/ra_database.c: the services that the server asks of the MySQL database, over the
-- statements of src/headers/ra_database.h and the tables of
-- setup/create_tables/00_remote_attestation_tables.sql.
pub mod Sql
mod Tests
pub mod Tables
pub mod Sessions
pub mod Active
pub mod Lookup
pub mod Nonces
pub mod Keys
pub mod Unused
