-- ===== src/Db/TxIndexes/Scan/Column.antt =====
-- db/rocksdb.go, GetAddrDescTransactions: the entries of a descriptor in the addresses column, in the
-- order of the keys.
use skyr_block_explorer.Prelude.{
  ℕ, ◌^◌, ◌≤◌, ◌<◌, ◌≡◌, refl, true, ◌&&◌, List, [], ◌∷◌, ◌++◌, All, arith, leb, if◌then◌else◌,
  Bool-cases, inl, inr,
}
use skyr_block_explorer.Prelude.Bytes.{Bytes}
use skyr_block_explorer.Db.Vlq.{Vlq}
use skyr_block_explorer.Db.Keys.{pack_address_key, bytes_ltb}
use skyr_block_explorer.Db.Types.{TxIndexes}
use skyr_block_explorer.Db.TxIndexes.{pack_tx_indexes}
use skyr_block_explorer.Db.TxIndexes.RoundTrip.{FitsIndexes}

-- The transactions of an address in a block, by the height of the block.
abbrev pub BlockEntry : Type 0
BlockEntry = ℕ × List TxIndexes

-- From the highest block to the lowest.
abbrev pub IsDescending : List BlockEntry → Type 0
IsDescending [] = Unit
IsDescending (b ∷ bs) = All (λ (c : BlockEntry). c.0 < b.0) bs × IsDescending bs

abbrev pub FitsEntry : ℕ → BlockEntry → Type 0
FitsEntry txid_len b = (b.0 < 2 ^ 32) × All (FitsIndexes txid_len) b.1

-- What the column has for a descriptor.
abbrev pub entry_of : Vlq → Bytes → BlockEntry → Bytes × Bytes
entry_of v addr_desc b = (pack_address_key addr_desc b.0, pack_tx_indexes v b.1)

unfoldable pub in_range : ℕ → ℕ → List BlockEntry → List BlockEntry
in_range lower higher [] = []
in_range lower higher (b ∷ bs) =
    let rest = in_range lower higher bs in
    if leb lower b.0 && leb b.0 higher then b ∷ rest else rest

-- `Seek` and `Next` over a column in the order of its keys.
unfoldable pub seek_in : List (Bytes × Bytes) → Bytes → List (Bytes × Bytes)
seek_in [] key = []
seek_in (e ∷ es) key = let rest = seek_in es key in if bytes_ltb e.0 key then rest else e ∷ es

pub in_range-below :
    (lower higher : ℕ) (bs : List BlockEntry)
    → All (λ (b : BlockEntry). b.0 < lower) bs
    → in_range lower higher bs ≡ []
unfolding in_range
in_range-below lower higher [] h = refl
in_range-below lower higher (b ∷ bs) h = ground (arith, h.0, in_range-below lower higher bs h.1)

pub All-below :
    (m n : ℕ) (bs : List BlockEntry)
    → m ≤ n
    → All (λ (b : BlockEntry). b.0 < m) bs
    → All (λ (b : BlockEntry). b.0 < n) bs
All-below m n [] le h = tt
All-below m n (b ∷ bs) le h = (omega (arith, h.0), All-below m n bs le h.1)

pub seek_in-before :
    (key : Bytes) (before es : List (Bytes × Bytes))
    → All (λ (e : Bytes × Bytes). bytes_ltb e.0 key ≡ true) before
    → seek_in (before ++ es) key ≡ seek_in es key
unfolding seek_in
seek_in-before key [] es h = refl
seek_in-before key (e ∷ before) es h = rw h.0 (seek_in-before key before es h.1)

pub seek_in-All :
    (P : Bytes × Bytes → Type 0) (key : Bytes) (es : List (Bytes × Bytes))
    → All P es
    → All P (seek_in es key)
unfolding seek_in
seek_in-All P key [] h = tt
seek_in-All P key (e ∷ es) h = elim (Bool-cases (bytes_ltb e.0 key)) [
  | inl y ↦ rw y (seek_in-All P key es h.1)
  | inr n ↦ rw n h
]
