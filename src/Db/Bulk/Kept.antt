-- ===== src/Db/Bulk/Kept.antt =====
-- db/bulkconnect.go, storeTxAddresses, storeBalances and storeAddressContracts: a part of a map that is
-- stored now and the rest that is stored later leave what the whole map would.
use skyr_block_explorer.Prelude.{
  ℕ, zero, suc, ◌-◌, ◌≡◌, refl, sym, ap, ◌∙◌, Bool, false, Option, none, some, List, [], ◌∷◌, ◌++◌,
  length, take, drop, arith, append_assoc, if◌then◌else◌, Bool-cases, inl, inr,
}
use skyr_block_explorer.Prelude.Bytes.{Bytes, bytes_eq, bytes_eq_iff}
use skyr_block_explorer.Prelude.GoMap.{GoMap, lookup, Distinct}
use skyr_block_explorer.Prelude.Result.{Result}
use skyr_block_explorer.Db.Types.{TxAddresses}
use skyr_block_explorer.Db.Connect.{Column}
use skyr_block_explorer.Db.Store.{put_or_delete, ops_of}
use skyr_block_explorer.Db.Store.Batch.{after_ops, after_ops-append, after_ops-ops_of}
use skyr_block_explorer.Db.Bulk.{
  is_spent, split_by, choose_tx_addresses, choose, partial_store_addresses,
}

take-append-drop : {A : Type 0} (n : ℕ) (xs : List A) → take n xs ++ drop n xs ≡ xs
take-append-drop zero xs = refl
take-append-drop (suc n) [] = refl
take-append-drop (suc n) (x ∷ xs) = ap (λ l. x ∷ l) (take-append-drop n xs)

-- What a map and another one that holds the same give.
abbrev pub Same : {V : Type 0} → GoMap V → GoMap V → Type 0
Same m n = (k : Bytes) → lookup k m ≡ lookup k n

lookup-append :
    {V : Type 0} (m n : GoMap V) (k : Bytes)
    → lookup k (m ++ n) ≡ (elim (lookup k m) [ none ↦ lookup k n | some x ↦ some x ])
unfolding lookup
lookup-append [] n k = refl
lookup-append ((j, x) ∷ m) n k = elim (Bool-cases (bytes_eq j k)) [
  | inl y ↦ rw y refl
  | inr y ↦ rw y (lookup-append m n k)
]

-- One entry more between two parts.
lookup-between :
    {V : Type 0} (m n : GoMap V) (j k : Bytes) (x : V)
    → lookup j (m ++ n) ≡ none
    → lookup k (m ++ ((j, x) ∷ n)) ≡ (if bytes_eq j k then some x else lookup k (m ++ n))
unfolding lookup
lookup-between [] n j k x h = refl
lookup-between ((i, z) ∷ m) n j k x h =
    ground
      (arith, bytes_eq_iff i k, bytes_eq_iff i j, bytes_eq_iff j k, h, lookup-between m n j k x)

Distinct-between :
    {V : Type 0} (m n : GoMap V) (j : Bytes) (x : V)
    → Distinct (m ++ n)
    → lookup j (m ++ n) ≡ none
    → Distinct (m ++ ((j, x) ∷ n))
unfolding lookup
Distinct-between [] n j x d h = (h, d)
Distinct-between ((i, z) ∷ m) n j x d h =
    let other : bytes_eq i j ≡ false = ground (arith, h) in
    let rest : lookup j (m ++ n) ≡ none = ground (arith, h, other) in
    let apart : bytes_eq j i ≡ false = ground (arith, other, bytes_eq_iff i j, bytes_eq_iff j i) in
    (lookup-between m n j i x rest ∙ rw apart d.0, Distinct-between m n j x d.1 rest)

-- The two parts of a map that a test splits hold what the map holds.
split_by-lookup :
    {V : Type 0} (p : V → Bool) (m : GoMap V)
    → Distinct m
    → Same ((split_by p m).0 ++ (split_by p m).1) m
unfolding lookup split_by
split_by-lookup p [] d k = refl
split_by-lookup p ((j, x) ∷ m) d k = elim (Bool-cases (p x)) [
  | inl y ↦ rw (y, split_by-lookup p m d.1 k) refl
  | inr y ↦ rw y (
      lookup-between (split_by p m).0 (split_by p m).1 j k x (split_by-lookup p m d.1 j ∙ d.0)
      ∙ rw (split_by-lookup p m d.1 k) refl)
]

split_by-Distinct :
    {V : Type 0} (p : V → Bool) (m : GoMap V)
    → Distinct m
    → Distinct ((split_by p m).0 ++ (split_by p m).1)
unfolding split_by
split_by-Distinct p [] d = tt
split_by-Distinct p ((j, x) ∷ m) d =
    let absent = split_by-lookup p m d.1 j ∙ d.0 in
    elim (Bool-cases (p x)) [
      | inl y ↦ rw y (absent, split_by-Distinct p m d.1)
      | inr y ↦ rw y (
          Distinct-between (split_by p m).0 (split_by p m).1 j x (split_by-Distinct p m d.1) absent)
    ]

ops_of-append :
    {V : Type 0} (c : Column) (f : V → Option Bytes) (m n : GoMap V)
    → ops_of c f (m ++ n) ≡ ops_of c f m ++ ops_of c f n
unfolding ops_of
ops_of-append c f [] n = refl
ops_of-append c f ((k, x) ∷ m) n = ap (λ l. put_or_delete c k (f x) ∷ l) (ops_of-append c f m n)

-- Two maps that hold the same leave the same.
after_ops-Same :
    {V : Type 0} (c : Column) (f : V → Option Bytes) (m n : GoMap V) (k : Bytes) (r : Result Bytes)
    → Distinct m
    → Distinct n
    → Same m n
    → after_ops c k (ops_of c f m) r ≡ after_ops c k (ops_of c f n) r
after_ops-Same c f m n k r dm dn s =
    after_ops-ops_of f c k m r dm ∙ rw (s k) refl ∙ sym (after_ops-ops_of f c k n r dn)

choose_tx_addresses-split :
    (heap : List TxAddresses) (m : GoMap ℕ)
    → (choose_tx_addresses heap false m).0 ++ (choose_tx_addresses heap false m).1
      ≡ (split_by (is_spent heap) m).0 ++ (split_by (is_spent heap) m).1
unfolding choose_tx_addresses
choose_tx_addresses-split heap m =
    let (spent, rest) = split_by (is_spent heap) m in
    let n = partial_store_addresses - length spent in
    append_assoc spent (take n rest) (drop n rest) ∙ ap (λ l. spent ++ l) (take-append-drop n rest)

-- The transactions that are chosen, and then those that are left.
pub choose_tx_addresses-kept :
    (c : Column) (f : ℕ → Option Bytes) (heap : List TxAddresses) (m : GoMap ℕ) (k : Bytes)
    (r : Result Bytes)
    → Distinct m
    → after_ops c k
        (ops_of c f (choose_tx_addresses heap false m).1)
        (after_ops c k (ops_of c f (choose_tx_addresses heap false m).0) r)
      ≡ after_ops c k (ops_of c f m) r
choose_tx_addresses-kept c f heap m k r d =
    let (chosen, left) = choose_tx_addresses heap false m in
    let (spent, rest) = split_by (is_spent heap) m in
    sym (after_ops-append c k (ops_of c f chosen) (ops_of c f left) r)
    ∙ ap (λ l. after_ops c k l r) (sym (ops_of-append c f chosen left))
    ∙ ap (λ l. after_ops c k (ops_of c f l) r) (choose_tx_addresses-split heap m)
    ∙ after_ops-Same c f (spent ++ rest) m k r (split_by-Distinct (is_spent heap) m d) d
        (split_by-lookup (is_spent heap) m d)

pub choose-split :
    {V : Type 0} (n : ℕ) (m : GoMap V) → (choose n false m).0 ++ (choose n false m).1 ≡ m
unfolding choose
choose-split n m = take-append-drop n m
