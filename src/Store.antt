-- ===== src/Store.antt =====
-- internal/store/store.go: the methods of Store, each a child module for the part of the database
-- that it keeps.
pub mod Words
pub mod Txn
pub mod Keys
pub mod Operator
pub mod Sessions
pub mod Instances
pub mod Meters
pub mod Events
