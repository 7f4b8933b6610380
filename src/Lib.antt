-- ===== src/Lib.antt =====
-- The index of the block explorer, what db/rocksdb.go and db/rocksdb_ethereumtype.go keep of a block
-- chain, how it follows the chain of the backend, and its mempool.
--
-- A block comes from the backend as the data of bchain/types.go (Chain.antt). The index keeps, in
-- columns of a data base, for each transaction its inputs and outputs, for each address its balance with
-- the outputs that are not spent, and for each address and block its transactions.
--
-- - Prelude: names of the libraries, Boolean tests and lists over the native numbers, integers with the
--   conversions of Go (Prelude/Int), byte strings (Prelude/Bytes), maps (Prelude/GoMap), results with
--   error values and panics (Prelude/Result), what holds of every element (Prelude/Each).
-- - Chain/Amount: bchain/baseparser.go, AmountToBigInt and AmountToDecimalString, with the digits of
--   math/big. Chain/Parser: ParseTxFromJson behind the JSON library, PackTx and UnpackTx. The codec of
--   github.com/gogo/protobuf is the parameter `Proto`; encoding/hex is written out.
-- - Db/Vlq: packVarint32 to unpackVaruint. The codec github.com/bsm/go-vlq is not in the repository: it
--   is the parameter `Vlq`, and `VlqLaws` states that a number is read back from what was written and
--   takes a byte at least. Db/Vlq/Fixed is a codec that has these laws.
-- - Db/Bigint: packBigint and unpackBigint, over words of 64 bits.
-- - Db/Keys: packUint, unpackUint, packAddressKey, unpackAddressKey. `bytes_ltb` is the order of keys in
--   the data base.
-- - Db/Reader: a buffer with a position, as the unpack functions go through it.
-- - Db/Types, Db/TxAddresses, Db/Utxos, Db/AddrBalance, Db/TxIndexes: the records, hasUtxo, addUtxo and
--   markUtxoAsSpent, addToAddressesMap, and the packing and reading of the columns.
-- - Db/TxIndexes/Scan: GetAddrDescTransactions, with a callback that keeps a state. Db/TxIndexes/Scan/Column
--   has the column that `Seek` and `Next` go through, and Db/TxIndexes/Scan/Delivered what the callback is
--   to be given.
-- - Db/Connect and Db/Connect/Process: processAddressesBitcoinType. A pointer to a TxAddresses is a
--   place in `heap`, since `txAddressesMap` and `blockTxAddresses` share objects; a balance is held by
--   one key only and stands in its map. The parser, the script builder of btcd and the reading of a
--   column are fields of `Env`; a parser or a builder that panics where the code tests its error counts
--   as one that gives an error.
-- - Db/BlockTxs: packOutpoints, unpackNOutpoints and the blockTxs column. Db/BlockInfo: packBlockInfo and
--   unpackBlockInfo.
-- - Db/Store: storeAddresses, storeTxAddresses, storeBalances, cleanupBlockTxs, storeAndCleanupBlockTxs,
--   writeHeight and ConnectBlock on the Bitcoin type. A batch is a list of operations; `Writes` in
--   Db/Store/Batch states what RocksDB documents of writing it.
-- - Db/Disconnect: disconnectTxAddresses, DisconnectBlockRangeBitcoinType and storeBalancesDisconnect,
--   for a range that does not end at the highest uint32. Db/Disconnect/Undone compares what it does to a
--   balance with what connecting did.
-- - Db/Lookup: GetBestBlock, GetBlockHash, GetBlockInfo, GetAddressBalance, GetTxAddresses and
--   AddrDescForOutpoint.
-- - Db/TxCache: db/txcache.go, with GetTx, PutTx and DeleteTx. Db/TxCache/Kept joins it with the base parser.
-- - Db/Ethereum: db/rocksdb_ethereumtype.go. The contracts of an address and their packing, with
--   Db/Ethereum/Process: processAddressesEthereumType, Db/Ethereum/BlockTxs: the blockTxs column,
--   Db/Ethereum/Connect: what ConnectBlock writes, Db/Ethereum/Disconnect:
--   DisconnectBlockRangeEthereumType. A nil descriptor is the empty one; `get_data` of `EthEnv` tells a
--   key with empty data from one that is not there.
-- - Db/Sync: db/sync.go, ResyncIndex, resyncIndex, handleFork, connectBlocks with getBlockChain, and
--   DisconnectBlocks. The index and the backend are the records `Index` and `Backend`, of which nothing
--   is assumed. The channel between getBlockChain and connectBlocks is left out: a block is connected
--   when it comes. ConnectBlocksParallel is a field of `Index`. Db/Sync/Follow is about connectBlocks,
--   Db/Sync/Fork about handleFork.
-- - Db/Sync/Parallel: ConnectBlocksParallel. `Step` has one constructor for each thing that a goroutine
--   does between two waits, and `Reach` is the states that any order of them comes to; a request to the
--   backend that fails and is repeated has no step. Db/Sync/Parallel/Invariant has the blocks connected
--   one after the other, and the invariant; Db/Sync/Parallel/Progress counts the steps that are left, and
--   Db/Sync/Parallel/Completes is about runs without a signal. The writer starts with a bulk connection
--   that InitBulkConnect gave without an error.
-- - Db/Bulk: db/bulkconnect.go. Connecting a block gives the new caches and what is written; a partial
--   store takes the first entries of a map, in the order that stands for the one of Go. A write of the
--   data base does not fail. Db/Bulk/Written and Db/Bulk/Single are about what is left in the data base.
-- - InternalState: common/internalstate.go, the state of the synchronisation. InternalState/Columns: the
--   statistics of the columns, on int64.
-- - Mempool: bchain/basemempool.go, the entries of the transactions and the outpoints of the addresses,
--   with the storing of an entry of bchain/mempool_bitcoin_type.go. Mempool/Index is the agreement of the
--   two maps. Mempool/Workers: getInputAddress and getTxAddrs, with the order in which the sub-workers
--   answer as an argument. Mempool/Resync: Resync. Its loop, the two channels of one element and the
--   workers are the relation `Step`; `io` stands for what the workers give.
-- - Chain/Amount/Tests, Chain/Parser/Tests, Db/Tests with the modules below it, and
--   Mempool/Tests: runs at concrete data.
--
-- Numbers: uint32 keeps its wrap-around by `% 2 ^ 32`, int32 by `to_int32`; lengths and counters of
-- statistics are natural numbers. Amounts are integers without a bound, as in math/big. `none` and
-- `panic` stand for a Go panic; a slice expression counts as one beyond the length of the slice.
-- A loop that allocates for a count read from the data base is modelled without the allocation, and
-- unpackAddrBalance without the estimate of the size, which divides by the length of an id: that length
-- is not 0.
--
-- Fuel: the loops over a buffer take the number of bytes that are left and one as fuel. Every round
-- takes a byte at least, so the fuel is enough. The loops of the synchronisation take fuel for the heights
-- that they go through, and a resync takes a number of calls, since it calls itself behind a fork.
--
-- Not modelled: logging, metrics and the options of the data base; the iteration over the columns for
-- their statistics, which only calls the data base; the mempool of the Ethereum type, which fills the same
-- two maps from one goroutine; the parsers and RPC clients of the single coins, which call btcd and the
-- backends; the API and the servers, which put JSON and HTML together from the parts above.
pub mod Prelude
pub mod Chain
pub mod Db
pub mod InternalState
pub mod Mempool
