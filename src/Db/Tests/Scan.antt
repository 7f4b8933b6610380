-- ===== src/Db/Tests/Scan.antt =====
-- Runs of the theorem on the transactions that are passed to a callback.
use native.Mathlib.Omega.{arith}
use skyr_block_explorer.Prelude.{ℕ, ◌≡◌, refl, List, [], ◌∷◌, ◌++◌, map, All}
use skyr_block_explorer.Prelude.Int.{ℤ, pos}
use skyr_block_explorer.Prelude.Bytes.{Bytes, slice_from, slice_to}
use skyr_block_explorer.Prelude.Result.{ok}
use skyr_block_explorer.Db.Vlq.{pack_varint32, unpack_varint32}
use skyr_block_explorer.Db.Vlq.Fixed.{fixed, fixed-laws}
use skyr_block_explorer.Db.Keys.{
  pack_uint, unpack_uint, pack_address_key, unpack_address_key, bytes_ltb,
}
use skyr_block_explorer.Db.Types.{TxIndexes}
use skyr_block_explorer.Db.TxIndexes.{pack_tx_indexes}
use skyr_block_explorer.Db.TxIndexes.RoundTrip.{FitsIndexes}
use skyr_block_explorer.Db.TxIndexes.Scan.{Signal, go_on, get_addr_desc_transactions}
use skyr_block_explorer.Db.TxIndexes.Scan.Column.{
  BlockEntry, FitsEntry, entry_of, in_range, seek_in,
}
use skyr_block_explorer.Db.TxIndexes.Scan.Delivered.{
  deliver, get_addr_desc_transactions_lem, get_addr_desc_transactions_mixed,
}
use skyr_block_explorer.Db.Tests.{parser, two_txs, two_txs-Fits}

-- A callback that collects what it is given.
abbrev Seen : Type 0
Seen = List (Bytes × ℕ × List ℤ)

abbrev collect : Seen → Bytes → ℕ → List ℤ → Signal Seen
collect s tx height indexes = go_on (s ++ (tx, height, indexes) ∷ [])

abbrev other_txs : List TxIndexes
other_txs = record { btx_id = 3 ∷ []; indexes = pos 0 ∷ [] } ∷ []

abbrev blocks : List BlockEntry
blocks = (700, other_txs) ∷ (600, two_txs) ∷ (500, other_txs) ∷ []

abbrev column : List (Bytes × Bytes)
column = [] ++ (map (entry_of fixed (7 ∷ [])) blocks ++ [])

other_txs-Fits : All (FitsIndexes 1) other_txs
other_txs-Fits = (record { id = refl; some_index = λ e. cc; each = (omega arith, tt) }, tt)

blocks-Fits : All (FitsEntry 1) blocks
blocks-Fits = (
  (omega arith, other_txs-Fits),
  ((omega arith, two_txs-Fits), ((omega arith, other_txs-Fits), tt)),
)

get_addr_desc_transactions_example :
    get_addr_desc_transactions fixed parser collect (seek_in column) (7 ∷ []) 550 650 []
    ≡ deliver parser collect (in_range 550 650 blocks) []
get_addr_desc_transactions_example =
    get_addr_desc_transactions_lem parser collect fixed-laws (7 ∷ []) (omega arith) 550 650 []
      blocks [] [] (omega arith) (omega arith) blocks-Fits (omega arith) tt tt

-- An address whose descriptor begins with the one that is asked for, and goes on like a height.
abbrev longer : Bytes
longer = 7 ∷ 255 ∷ 255 ∷ 255 ∷ 252 ∷ []

abbrev of_longer : List (Bytes × Bytes)
of_longer = (pack_address_key longer 900, pack_tx_indexes fixed other_txs) ∷ []

-- Its transactions are passed on too.
mixed_descriptors :
    get_addr_desc_transactions fixed parser collect (seek_in of_longer) (7 ∷ []) 1 5 []
    ≡ ok ((3 ∷ [], 900, pos 0 ∷ []) ∷ [])
unfolding get_addr_desc_transactions seek_in pack_address_key unpack_address_key pack_uint
    unpack_uint bytes_ltb pack_tx_indexes unpack_varint32 slice_from slice_to pack_varint32
mixed_descriptors = refl

get_addr_desc_transactions_mixed_example :
    get_addr_desc_transactions fixed parser collect
      (seek_in ([] ++ (entry_of fixed longer (900, other_txs) ∷ [])))
      (7 ∷ [])
      1
      5
      []
    ≡ deliver parser collect ((900, other_txs) ∷ []) []
unfolding pack_address_key pack_uint bytes_ltb
get_addr_desc_transactions_mixed_example =
    get_addr_desc_transactions_mixed parser collect fixed-laws (7 ∷ []) longer 1 5 []
      (900, other_txs) [] [] (omega arith) (omega arith, other_txs-Fits) refl refl tt tt
