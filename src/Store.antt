-- ===== src/Store.antt =====
-- internal/store: the layout of the key space and of the records of the change log.
pub mod Keys
pub mod Record
pub mod KeyValue
pub mod Pebble
pub mod Apply
pub mod Read
pub mod Scan
pub mod Recover
pub mod Mvcc
