-- ===== src/Db/Utxos/Index.antt =====
-- db/rocksdb.go, addUtxo and markUtxoAsSpent: on the index of the outputs.
use native.Mathlib.Decide.{dec_le}
use skyr_block_explorer.Prelude.{
  ℕ, zero, suc, ◌+◌, ◌-◌, ◌≤◌, ◌<◌, ◌≡◌, refl, sym, ap, ◌∙◌, inl, inr, Option, none, some, List, [],
  ◌∷◌, ◌++◌, length, length-append, arith, ◌==◌, if◌then◌else◌, Option-cases, Bool-cases,
}
use skyr_block_explorer.Prelude.Int.{ℤ}
use skyr_block_explorer.Prelude.Bytes.{Bytes, bytes_eq, bytes_eq_iff}
use skyr_block_explorer.Prelude.GoMap.{GoMap, lookup, lookup-insert}
use skyr_block_explorer.Db.Types.{Utxo, AddrBalance}
use skyr_block_explorer.Db.Utxos.{
  insert_new, index_all, add_utxo, mark_linear, mark_onward, mark_from, mark_utxo_as_spent,
}

-- The index of the first output of a transaction.
unfoldable pub first_of : Bytes → List Utxo → Option ℕ
first_of id [] = none
first_of id (u ∷ us) =
    if bytes_eq u.btx_id id
    then some 0
    else (elim (first_of id us) [ none ↦ none | some i ↦ some (suc i) ])

-- Below sixteen outputs there is no index, and from then on it has the first output of each transaction.
pub record IsIndexed (ab : AddrBalance) : Type 0 where
  pub none_below : length ab.utxos < 16 → ab.utxos_map ≡ []
  pub first : 16 ≤ length ab.utxos → (id : Bytes) → lookup id ab.utxos_map ≡ first_of id ab.utxos

lookup-insert_new :
    (id j : Bytes) (i : ℕ) (m : GoMap ℕ)
    → lookup j (insert_new id i m)
      ≡ (elim (lookup j m) [ none ↦ if bytes_eq id j then some i else none | some k ↦ some k ])
unfolding insert_new
lookup-insert_new id j i m = ground (arith, lookup-insert id j i m, bytes_eq_iff id j)

shift : ℕ → Option ℕ → Option ℕ
shift i none = none
shift i (some k) = some (i + k)

lookup-index_all :
    (us : List Utxo) (i : ℕ) (m : GoMap ℕ) (j : Bytes)
    → lookup j (index_all i us m)
      ≡ (elim (lookup j m) [ none ↦ shift i (first_of j us) | some k ↦ some k ])
unfolding index_all first_of shift
lookup-index_all [] i m j = ground arith
lookup-index_all (u ∷ us) i m j = ground (
  arith,
  lookup-index_all us (i + 1) (insert_new u.btx_id i m) j,
  lookup-insert_new u.btx_id j i m,
)

first_of-snoc :
    (us : List Utxo) (u : Utxo) (j : Bytes)
    → first_of j (us ++ u ∷ []) ≡ (elim (first_of j us) [
      | none ↦ if bytes_eq u.btx_id j then some (length us) else none
      | some k ↦ some k
    ])
unfolding first_of
first_of-snoc [] u j = ground arith
first_of-snoc (w ∷ us) u j = ground (arith, first_of-snoc us u j)

length-snoc : (us : List Utxo) (u : Utxo) → length (us ++ u ∷ []) ≡ length us + 1
length-snoc us u = omega (arith, length-append us (u ∷ []))

shift-zero : (o : Option ℕ) → shift 0 o ≡ o
unfolding shift
shift-zero none = refl
shift-zero (some k) = ap some (omega arith)

rebuilt : (us : List Utxo) (j : Bytes) → lookup j (index_all 0 us []) ≡ first_of j us
rebuilt us j = lookup-index_all us 0 [] j ∙ unfold lookup in shift-zero (first_of j us)

extended :
    (us : List Utxo) (u : Utxo) (m : GoMap ℕ) (j : Bytes)
    → lookup j m ≡ first_of j us
    → lookup j (insert_new u.btx_id (length (us ++ u ∷ []) - 1) m) ≡ first_of j (us ++ u ∷ [])
extended us u m j h =
    let e : length (us ++ u ∷ []) - 1 ≡ length us = omega (arith, length-snoc us u) in
    rw (e, lookup-insert_new, h, first_of-snoc) refl

-- Adding an output keeps the index fitting: none below sixteen outputs, and from then on the first
-- place of each transaction, also where the index is first built.
pub add_utxo-IsIndexed : (ab : AddrBalance) (u : Utxo) → IsIndexed ab → IsIndexed (add_utxo ab u)
unfolding add_utxo
add_utxo-IsIndexed ab u w = record {
  none_below = λ h. ground (arith, length-snoc ab.utxos u, w.none_below);
  first = λ h j. elim (dec_le 16 (length ab.utxos)) [
    | yes p ↦ ground (
      arith,
      length-snoc ab.utxos u,
      rebuilt (ab.utxos ++ u ∷ []) j,
      extended ab.utxos u ab.utxos_map j (w.first p j),
    )
    | no p ↦
        rw (w.none_below (omega arith))
          (ground (arith, length-snoc ab.utxos u, rebuilt (ab.utxos ++ u ∷ []) j))
  ];
}

-- Marking changes no transaction id and no length, so the index stays right.
first_of-mark_linear :
    (id : Bytes) (vout : ℤ) (us : List Utxo) (j : Bytes)
    → first_of j (mark_linear id vout us) ≡ first_of j us
unfolding first_of mark_linear
first_of-mark_linear id vout [] j = refl
first_of-mark_linear id vout (u ∷ us) j = ground (arith, first_of-mark_linear id vout us j)

length-mark_linear :
    (id : Bytes) (vout : ℤ) (us : List Utxo) → length (mark_linear id vout us) ≡ length us
unfolding mark_linear
length-mark_linear id vout [] = refl
length-mark_linear id vout (u ∷ us) = ground (arith, length-mark_linear id vout us)

first_of-mark_onward :
    (id : Bytes) (vout : ℤ) (us : List Utxo) (j : Bytes)
    → first_of j (mark_onward id vout us) ≡ first_of j us
unfolding first_of mark_onward
first_of-mark_onward id vout [] j = refl
first_of-mark_onward id vout (u ∷ us) j = ground (arith, first_of-mark_onward id vout us j)

length-mark_onward :
    (id : Bytes) (vout : ℤ) (us : List Utxo) → length (mark_onward id vout us) ≡ length us
unfolding mark_onward
length-mark_onward id vout [] = refl
length-mark_onward id vout (u ∷ us) = ground (arith, length-mark_onward id vout us)

mark_from_shape :
    (i : ℕ) (id : Bytes) (vout : ℤ) (us : List Utxo)
    → ((j : Bytes) → first_of j (mark_from i id vout us) ≡ first_of j us)
      × (length (mark_from i id vout us) ≡ length us)
unfolding mark_from first_of
mark_from_shape zero id vout us = (first_of-mark_onward id vout us, length-mark_onward id vout us)
mark_from_shape (suc i) id vout [] = (λ j. refl, refl)
mark_from_shape (suc i) id vout (u ∷ us) =
    let (f, l) = mark_from_shape i id vout us in (λ j. ground (arith, f j), ap suc l)

same_shape :
    (ab : AddrBalance) (us : List Utxo)
    → ((j : Bytes) → first_of j us ≡ first_of j ab.utxos)
    → length us ≡ length ab.utxos
    → IsIndexed ab
    → IsIndexed (record ab { utxos = us })
same_shape ab us f l w = record {
  none_below = λ h. w.none_below (omega arith);
  first = λ h j. w.first (omega arith) j ∙ sym (f j);
}

-- Marking an output as spent keeps the index fitting.
pub mark_utxo_as_spent-IsIndexed :
    (ab : AddrBalance) (id : Bytes) (vout : ℤ)
    → IsIndexed ab
    → IsIndexed (mark_utxo_as_spent ab id vout)
unfolding mark_utxo_as_spent
mark_utxo_as_spent-IsIndexed ab id vout w = elim (Bool-cases (length ab.utxos_map == 0)) [
  | inl e ↦ rw e (
      same_shape ab _ (first_of-mark_linear id vout ab.utxos) (length-mark_linear id vout ab.utxos)
        w)
  | inr e ↦ rw e (elim (Option-cases (lookup id ab.utxos_map)) [
    | inl n ↦ rw n w
    | inr (i, s) ↦ let (f, l) = mark_from_shape i id vout ab.utxos in rw s (same_shape ab _ f l w)
  ])
]
