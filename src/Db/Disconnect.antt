-- ===== src/Db/Disconnect.antt =====
-- db/rocksdb.go, getBlockTxs, disconnectTxAddresses, DisconnectBlockRangeBitcoinType and
-- storeBalancesDisconnect: how blocks are taken back.
pub mod Settled
pub mod Undone
use mathlib.Core.List.{reverse}
use skyr_block_explorer.Prelude.{
  ℕ, zero, suc, ◌+◌, ◌-◌, ◌%◌, ◌^◌, Bool, true, false, not, Option, none, some, List, [], ◌∷◌, ◌++◌,
  map, length, get_elem?, set, ltb, ◌==◌, if◌then◌else◌,
}
use skyr_block_explorer.Prelude.Int.{ℤ, pos, negsuc, ◌+ℤ◌, ◌-ℤ◌, is_neg, to_int32}
use skyr_block_explorer.Prelude.Bytes.{Bytes, bytes_eq}
use skyr_block_explorer.Prelude.GoMap.{GoMap, lookup, insert}
use skyr_block_explorer.Prelude.Result.{Result, ok, err, panic, cannot_disconnect, run, ◌>>=◌}
use skyr_block_explorer.Chain.{ChainParser}
use skyr_block_explorer.Db.Keys.{pack_uint, pack_address_key}
use skyr_block_explorer.Db.Types.{
  TxInput, TxOutput, TxAddresses, Utxo, AddrBalance, BtxOutpoint, BlockTxs,
}
use skyr_block_explorer.Db.Utxos.{mark_utxo_as_spent}
use skyr_block_explorer.Db.AddrBalance.{utxo_indexed}
use skyr_block_explorer.Db.BlockTxs.{unpack_block_txs}
use skyr_block_explorer.Db.Connect.{
  Env, get_addr_desc_balance, get_tx_addresses, with_owner, cf_height, cf_addresses, cf_block_txs,
  cf_transactions, cf_tx_addresses,
}
use skyr_block_explorer.Db.Store.{Op, delete_cf, store_tx_addresses, store_balances}

-- The maps of the blocks that are taken back. A pointer is held by one key only, so the maps hold the
-- objects; a balance that is not in the data base is nil.
pub record Undo : Type 0 where
  pub tx_addresses_to_update : GoMap TxAddresses
  pub balances : GoMap (Option AddrBalance)

-- The set `addresses` of one transaction.
abbrev pub is_in : Bytes → List Bytes → Bool
is_in s [] = false
is_in s (a ∷ seen) = if bytes_eq a s then true else is_in s seen

abbrev pub include : Bytes → List Bytes → List Bytes
include s seen = if is_in s seen then seen else seen ++ s ∷ []

-- `balance.Txs--` on a uint32, only once.
unfoldable pub uncount_tx : Bool → AddrBalance → AddrBalance
uncount_tx true balance = balance
uncount_tx false balance = record balance { txs = (balance.txs + (2 ^ 32 - 1)) % 2 ^ 32 }

unfoldable pub or_zero : ℤ → ℤ
or_zero z = if is_neg z then pos 0 else z

-- The output that an input spent is back at its address.
unfoldable pub restore : Bool → TxInput → Utxo → AddrBalance → AddrBalance
unfolding uncount_tx or_zero
restore exist t u balance =
    let b = uncount_tx exist balance in
    record b {
      sent_sat = or_zero (b.sent_sat -ℤ t.value_sat);
      balance_sat = b.balance_sat +ℤ t.value_sat;
      utxos = b.utxos ++ u ∷ [];
    }

-- An output of the transaction is taken from its address.
unfoldable pub withdraw : Bool → Bytes → ℤ → TxOutput → AddrBalance → AddrBalance
unfolding uncount_tx or_zero
withdraw exist btx_id vout t balance =
    let b = uncount_tx exist balance in
    mark_utxo_as_spent (record b { balance_sat = or_zero (b.balance_sat -ℤ t.value_sat) }) btx_id
      vout

module _ (env : Env) where
  open env use {vlq, parser, get_cf}

  unfoldable pub get_block_txs : ℕ → Result (List BlockTxs)
  get_block_txs height = do
    val ← get_cf cf_block_txs (pack_uint height)
    unpack_block_txs vlq parser.packed_txid_len val

  balance_at : Undo → Bytes → Result (Option AddrBalance × Undo)
  balance_at m s = elim (lookup s m.balances) [
    | some b ↦ ok (b, m)
    | none ↦ do
      b ← get_addr_desc_balance env s utxo_indexed
      ok (b, record m { balances = insert s b m.balances })
  ]

  -- A balance that is not nil is changed in the map.
  change_balance : (AddrBalance → AddrBalance) → Undo → Bytes → Result Undo
  change_balance f m s = do
    (b, m) ← balance_at m s
    elim b [
      | none ↦ ok m
      | some balance ↦ ok (record m { balances = insert s (some (f balance)) m.balances })
    ]

  -- The transaction that an input spent, in the map of those to update if there is one.
  spent_of : Undo → Bytes → Result (Option TxAddresses × Undo)
  spent_of m s = elim (lookup s m.tx_addresses_to_update) [
    | some sa ↦ ok (some sa, m)
    | none ↦ do
      found ← get_tx_addresses env s
      elim found [
        | none ↦ ok (none, m)
        | some sa ↦
            ok (some sa, record m { tx_addresses_to_update = insert s sa m.tx_addresses_to_update })
      ]
  ]

  -- `sa.Outputs[input.index].Spent = false`, which panics out of range.
  set_unspent : TxAddresses → ℤ → Result TxAddresses
  set_unspent sa (negsuc _) = panic
  set_unspent sa (pos i) = do
    o ← run (get_elem? sa.outputs i)
    ok (record sa { outputs = set sa.outputs i (record o { spent = false }) })

  -- The height of that transaction, zero if it is not known.
  unspend : Undo → BtxOutpoint → Result (ℕ × Undo)
  unspend m input = do
    (found, m) ← spent_of m input.btx_id
    elim found [
      | none ↦ ok (0, m)
      | some sa ↦ do
        sa ← set_unspent sa input.index
        ok (
          sa.height,
          record m { tx_addresses_to_update = insert input.btx_id sa m.tx_addresses_to_update },
        )
    ]

  -- One descriptor of an input. The state is the set of addresses and the maps.
  pub undo_input_at :
      List BtxOutpoint → ℕ → TxInput → List Bytes × Undo → Bytes → Result (List Bytes × Undo)
  undo_input_at inputs i t (addresses, m) ad = elim (length ad == 0) [
    | true ↦ ok (addresses, m)
    | false ↦ do
      input ← run (get_elem? inputs i)
      (height, m) ← unspend m input
      m ← elim (parser.is_addr_desc_indexable ad) [
        | false ↦ ok m
        | true ↦
            change_balance
              (restore (is_in ad addresses) t (record {
                btx_id = input.btx_id;
                vout = input.index;
                height = height;
                value_sat = t.value_sat;
              }))
              m ad
      ]
      ok (include ad addresses, m)
  ]

  pub undo_output_at : Bytes → ℕ → TxOutput → List Bytes × Undo → Bytes → Result (List Bytes × Undo)
  undo_output_at btx_id i t (addresses, m) ad = elim (length ad == 0) [
    | true ↦ ok (addresses, m)
    | false ↦ do
      m ← elim (parser.is_addr_desc_indexable ad) [
        | false ↦ ok m
        | true ↦ change_balance (withdraw (is_in ad addresses) btx_id (to_int32 (pos i)) t) m ad
      ]
      ok (include ad addresses, m)
  ]

  each :
      (List Bytes × Undo → Bytes → Result (List Bytes × Undo))
      → List Bytes × Undo
      → List Bytes
      → Result (List Bytes × Undo)
  each f m [] = ok m
  each f m (ad ∷ ads) = do m ← f m ad; each f m ads

  undo_inputs : List BtxOutpoint → ℕ → List TxInput → List Bytes × Undo → Result (List Bytes × Undo)
  undo_inputs inputs i [] m = ok m
  undo_inputs inputs i (t ∷ ts) m = do
    m ← each (undo_input_at inputs i t) m (with_owner env t.addr_desc)
    undo_inputs inputs (i + 1) ts m

  undo_outputs : Bytes → ℕ → List TxOutput → List Bytes × Undo → Result (List Bytes × Undo)
  undo_outputs btx_id i [] m = ok m
  undo_outputs btx_id i (t ∷ ts) m = do
    m ← each (undo_output_at btx_id i t) m (with_owner env t.addr_desc)
    undo_outputs btx_id (i + 1) ts m

  -- What goes into the batch, and the maps.
  unfoldable pub disconnect_tx_addresses :
      ℕ → Bytes → List BtxOutpoint → TxAddresses → Undo → Result (List Op × Undo)
  unfolding balance_at change_balance spent_of set_unspent unspend undo_input_at undo_output_at each
      undo_inputs undo_outputs
  disconnect_tx_addresses height btx_id inputs txa m = do
    m ← undo_inputs inputs 0 txa.inputs ([], m)
    (addresses, m) ← undo_outputs btx_id 0 txa.outputs m
    ok (map (λ a. delete_cf cf_addresses (pack_address_key a height)) addresses, m)

  -- The transactions of a block, the last one first.
  undo_txs : ℕ → List BlockTxs → Undo → Result (List Op × Undo)
  undo_txs height [] m = ok ([], m)
  undo_txs height (t ∷ ts) m = do
    found ← get_tx_addresses env t.btx_id
    (ops, m) ← elim found [
      | none ↦ ok ([], m)
      | some txa ↦ disconnect_tx_addresses height t.btx_id t.inputs txa m
    ]
    (more, m) ← undo_txs height ts m
    ok (ops ++ more, m)

  undo_block : ℕ → List BlockTxs → Undo → Result (List Op × Undo)
  undo_block height bt m = do
    (ops, m) ← undo_txs height (reverse bt) m
    ok (
      ops
          ++ delete_cf cf_block_txs (pack_uint height)
            ∷ delete_cf cf_height (pack_uint height)
            ∷ [],
      m,
    )

  -- The first loop, from the height `h` on: the blocks, or the error of a block without data.
  load_blocks : ℕ → ℕ → Result (List (ℕ × List BlockTxs))
  load_blocks zero h = ok []
  load_blocks (suc n) h = do
    bt ← get_block_txs h
    elim (length bt == 0) [
      | true ↦ err cannot_disconnect
      | false ↦ (do blocks ← load_blocks n (h + 1); ok ((h, bt) ∷ blocks))
    ]

  -- The second loop, over the blocks from the highest on.
  undo_blocks : List (ℕ × List BlockTxs) → Undo → Result (List Op × Undo)
  undo_blocks [] m = ok ([], m)
  undo_blocks ((h, bt) ∷ blocks) m = do
    (ops, m) ← undo_block h bt m
    (more, m) ← undo_blocks blocks m
    ok (ops ++ more, m)

-- An output is kept unless it is marked as spent.
unfoldable pub unspent : List Utxo → List Utxo
unspent [] = []
unspent (u ∷ us) = let rest = unspent us in if not (is_neg u.vout) then u ∷ rest else rest

-- `sort.SliceStable` by the height.
unfoldable pub insert_by_height : Utxo → List Utxo → List Utxo
insert_by_height u [] = u ∷ []
insert_by_height u (w ∷ us) =
    if ltb w.height u.height then w ∷ insert_by_height u us else u ∷ w ∷ us

unfoldable pub sort_by_height : List Utxo → List Utxo
sort_by_height [] = []
sort_by_height (u ∷ us) = insert_by_height u (sort_by_height us)

unfoldable pub settle : Option AddrBalance → Option AddrBalance
settle none = none
settle (some b) = some (record b { utxos = sort_by_height (unspent b.utxos) })

settle_all : GoMap (Option AddrBalance) → GoMap (Option AddrBalance)
settle_all [] = []
settle_all ((s, b) ∷ m) = (s, settle b) ∷ settle_all m

-- The transactions to delete; a set in the code.
deletions : List BlockTxs → List Op
deletions [] = []
deletions (t ∷ ts) =
    delete_cf cf_transactions t.btx_id ∷ delete_cf cf_tx_addresses t.btx_id ∷ deletions ts

all_txs : List (ℕ × List BlockTxs) → List BlockTxs
all_txs [] = []
all_txs ((_, bt) ∷ blocks) = bt ++ all_txs blocks

module _ (env : Env) where
  open env use {vlq}

  unfoldable pub store_balances_disconnect : GoMap (Option AddrBalance) → List Op
  unfolding settle_all
  store_balances_disconnect balances = store_balances vlq (settle_all balances)

  -- `height >= lower` holds of every uint32 if `lower` is zero: behind the block zero the loop goes on
  -- with the highest uint32, which is out of the range of `blocks`.
  loop_end : ℕ → List Op × Undo → Result (List Op × Undo)
  loop_end zero r = panic
  loop_end (suc _) r = ok r

  -- The batch that is written, for `lower <= higher < 2 ^ 32 - 1`.
  unfoldable pub disconnect_block_range_bitcoin_type : ℕ → ℕ → Result (List Op)
  unfolding undo_txs undo_block load_blocks undo_blocks deletions all_txs loop_end
  disconnect_block_range_bitcoin_type lower higher = do
    blocks ← load_blocks env (higher + 1 - lower) lower
    r ← undo_blocks env (reverse blocks) (record { tx_addresses_to_update = []; balances = [] })
    (ops, m) ← loop_end lower r
    ok (
        ops
        ++ (store_tx_addresses vlq m.tx_addresses_to_update
            ++ (store_balances_disconnect m.balances ++ deletions (all_txs blocks))))
