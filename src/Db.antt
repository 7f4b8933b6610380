-- ===== src/Db.antt =====
-- db/rocksdb.go: the index of the block chain, its packed records and the operations on them.
pub mod Bulk
pub mod Vlq
pub mod Bigint
pub mod Reader
pub mod Keys
pub mod Types
pub mod TxAddresses
pub mod Utxos
pub mod AddrBalance
pub mod TxIndexes
pub mod BlockTxs
pub mod BlockInfo
pub mod Connect
pub mod Store
pub mod Disconnect
pub mod Lookup
pub mod TxCache
pub mod Ethereum
pub mod Sync
mod Tests
