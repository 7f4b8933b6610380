-- ===== src/Db/Utxos/Spend.antt =====
-- Which output is marked as spent, and which outputs the search for duplicates finds.
use native.Mathlib.Decide.{dec_le}
use skyr_block_explorer.Prelude.{
  ℕ, ◌≡◌, refl, sym, ap, ◌∙◌, ◌≢◌, inl, inr, false, none, some, List, [], ◌∷◌, ◌++◌, length,
  get_elem?, All, All-append, arith, ◌==◌, if◌then◌else◌, Bool-cases,
}
use skyr_block_explorer.Prelude.Int.{ℤ, eq_ℤ, eq_ℤ→eq, eq_ℤ-refl}
use skyr_block_explorer.Prelude.Bytes.{Bytes, bytes_eq_iff}
use skyr_block_explorer.Prelude.GoMap.{GoMap, lookup}
use skyr_block_explorer.Db.Types.{Utxo, AddrBalance}
use skyr_block_explorer.Db.Utxos.{
  any_utxo, has_vout_at, has_utxo, mark_linear, mark_onward, mark_from, mark_utxo_as_spent,
}
use skyr_block_explorer.Db.Utxos.Index.{IsIndexed, first_of}

abbrev pub OfTx : Bytes → Utxo → Type 0
OfTx id u = u.btx_id ≡ id

abbrev pub NotOfTx : Bytes → Utxo → Type 0
NotOfTx id u = u.btx_id ≢ id

mark_linear-others :
    (id : Bytes) (vout : ℤ) (us : List Utxo) → All (NotOfTx id) us → mark_linear id vout us ≡ us
unfolding mark_linear
mark_linear-others id vout [] h = refl
mark_linear-others id vout (u ∷ us) h =
    ground (arith, h.0, bytes_eq_iff u.btx_id id, mark_linear-others id vout us h.1)

mark_linear-skip :
    (id : Bytes) (vout : ℤ) (before us : List Utxo)
    → All (NotOfTx id) before
    → mark_linear id vout (before ++ us) ≡ before ++ mark_linear id vout us
unfolding mark_linear
mark_linear-skip id vout [] us h = refl
mark_linear-skip id vout (u ∷ before) us h =
    ground (arith, h.0, bytes_eq_iff u.btx_id id, mark_linear-skip id vout before us h.1)

mark_linear-together :
    (id : Bytes) (vout : ℤ) (block after : List Utxo)
    → All (NotOfTx id) after
    → mark_linear id vout (block ++ after) ≡ mark_linear id vout block ++ after
unfolding mark_linear
mark_linear-together id vout [] after h = mark_linear-others id vout after h
mark_linear-together id vout (u ∷ block) after h =
    ground (arith, mark_linear-together id vout block after h)

mark_onward-others :
    (id : Bytes) (vout : ℤ) (us : List Utxo) → All (NotOfTx id) us → mark_onward id vout us ≡ us
unfolding mark_onward
mark_onward-others id vout [] h = refl
mark_onward-others id vout (u ∷ us) h =
    ground (arith, h.0, bytes_eq_iff u.btx_id id, mark_onward-others id vout us h.1)

mark_onward-together :
    (id : Bytes) (vout : ℤ) (block after : List Utxo)
    → All (OfTx id) block
    → All (NotOfTx id) after
    → mark_onward id vout (block ++ after) ≡ mark_linear id vout block ++ after
unfolding mark_onward mark_linear
mark_onward-together id vout [] after h k = mark_onward-others id vout after k
mark_onward-together id vout (u ∷ block) after h k =
    ground (arith, h.0, bytes_eq_iff u.btx_id id, mark_onward-together id vout block after h.1 k)

mark_from-skip :
    (id : Bytes) (vout : ℤ) (before us : List Utxo)
    → mark_from (length before) id vout (before ++ us) ≡ before ++ mark_onward id vout us
unfolding mark_from
mark_from-skip id vout [] us = refl
mark_from-skip id vout (u ∷ before) us = ap (λ r. u ∷ r) (mark_from-skip id vout before us)

first_of-others : (id : Bytes) (us : List Utxo) → All (NotOfTx id) us → first_of id us ≡ none
unfolding first_of
first_of-others id [] h = refl
first_of-others id (u ∷ us) h =
    ground (arith, h.0, bytes_eq_iff u.btx_id id, first_of-others id us h.1)

first_of-skip :
    (id : Bytes) (before : List Utxo) (u : Utxo) (us : List Utxo)
    → All (NotOfTx id) before
    → OfTx id u
    → first_of id (before ++ (u ∷ us)) ≡ some (length before)
unfolding first_of
first_of-skip id [] u us h k = ground (arith, k, bytes_eq_iff u.btx_id id)
first_of-skip id (w ∷ before) u us h k =
    ground (arith, h.0, bytes_eq_iff w.btx_id id, first_of-skip id before u us h.1 k)

-- With an index in place, it has the first output of each transaction.
indexed_lookup :
    (ab : AddrBalance) (id : Bytes)
    → IsIndexed ab
    → (length ab.utxos_map == 0) ≡ false
    → lookup id ab.utxos_map ≡ first_of id ab.utxos
indexed_lookup ab id w e = elim (dec_le 16 (length ab.utxos)) [
  | yes p ↦ w.first p id
  | no p ↦ absurd (ground (arith, ap (λ (m : GoMap ℕ). length m) (w.none_below (omega arith))))
]

marked_by_index :
    (ab : AddrBalance) (id : Bytes) (vout : ℤ) {i : ℕ}
    → IsIndexed ab
    → (length ab.utxos_map == 0) ≡ false
    → first_of id ab.utxos ≡ some i
    → (mark_utxo_as_spent ab id vout).utxos ≡ mark_from i id vout ab.utxos
unfolding mark_utxo_as_spent
marked_by_index ab id vout w e f = rw e (rw (indexed_lookup ab id w e, f) refl)

-- If the index of a balance fits its outputs, and the outputs of a transaction stand together
-- between outputs of other transactions, then marking an output as spent marks what the linear
-- search among the outputs of the transaction marks, and nothing else, with an index or without
-- one.
pub mark_utxo_as_spent_together :
    (ab : AddrBalance) (id : Bytes) (vout : ℤ) (before block after : List Utxo)
    → IsIndexed ab
    → ab.utxos ≡ before ++ (block ++ after)
    → All (NotOfTx id) before
    → All (OfTx id) block
    → All (NotOfTx id) after
    → (mark_utxo_as_spent ab id vout).utxos ≡ before ++ (mark_linear id vout block ++ after)
mark_utxo_as_spent_together ab id vout before block after w e hb hk ha =
    elim (Bool-cases (length ab.utxos_map == 0)) [
      | inl z ↦
          unfold mark_utxo_as_spent in
          rw z (
            rw e (
              mark_linear-skip id vout before (block ++ after) hb
              ∙ ap (λ r. before ++ r) (mark_linear-together id vout block after ha)))
      | inr z ↦ by_index block e hk z
    ]
  where
    by_index :
        (block : List Utxo)
        → ab.utxos ≡ before ++ (block ++ after)
        → All (OfTx id) block
        → (length ab.utxos_map == 0) ≡ false
        → (mark_utxo_as_spent ab id vout).utxos ≡ before ++ (mark_linear id vout block ++ after)
    by_index [] e hk z =
        let f : first_of id ab.utxos ≡ none =
          rw e
            (first_of-others id (before ++ after) (All-append (NotOfTx id) before after hb ha)) in
        unfold mark_utxo_as_spent mark_linear in rw z (rw (indexed_lookup ab id w z, f) e)
    by_index (u ∷ block) e hk z =
        let f : first_of id ab.utxos ≡ some (length before) =
          rw e (first_of-skip id before u (block ++ after) hb hk.0) in
        marked_by_index ab id vout w z f
        ∙ ap (mark_from (length before) id vout) e
        ∙ mark_from-skip id vout before ((u ∷ block) ++ after)
        ∙ ap (λ r. before ++ r) (mark_onward-together id vout (u ∷ block) after hk ha)

-- If a balance has an index that fits, and behind the first output of a transaction, which has
-- another output index, there stands an output of another transaction with the output index sought,
-- then nothing is marked as spent.
pub mark_utxo_as_spent_blocked :
    (ab : AddrBalance) (id : Bytes) (vout : ℤ) (before : List Utxo) (u other : Utxo)
    (rest : List Utxo)
    → IsIndexed ab
    → (length ab.utxos_map == 0) ≡ false
    → ab.utxos ≡ before ++ (u ∷ other ∷ rest)
    → All (NotOfTx id) before
    → OfTx id u
    → u.vout ≢ vout
    → NotOfTx id other
    → other.vout ≡ vout
    → (mark_utxo_as_spent ab id vout).utxos ≡ ab.utxos
mark_utxo_as_spent_blocked ab id vout before u other rest w z e hb hu hv ho ev =
    let f : first_of id ab.utxos ≡ some (length before) =
      rw e (first_of-skip id before u (other ∷ rest) hb hu) in
    marked_by_index ab id vout w z f
    ∙ ap (mark_from (length before) id vout) e
    ∙ mark_from-skip id vout before (u ∷ other ∷ rest)
    ∙ ap (λ r. before ++ r) stays
    ∙ sym e
  where
    stays : mark_onward id vout (u ∷ other ∷ rest) ≡ u ∷ other ∷ rest
    stays =
        unfold mark_onward in
        ground (arith, eq_ℤ→eq u.vout vout, bytes_eq_iff other.btx_id id, ev, eq_ℤ-refl vout)

get_elem?-skip :
    (before : List Utxo) (u : Utxo) (us : List Utxo)
    → get_elem? (before ++ (u ∷ us)) (length before) ≡ some u
get_elem?-skip [] u us = refl
get_elem?-skip (w ∷ before) u us = get_elem?-skip before u us

-- If the index of a balance fits its outputs and a transaction has an output among them, then
-- without an index the test for an output of the transaction compares every output, and with an
-- index only the first output of the transaction.
pub has_utxo_cases :
    (ab : AddrBalance) (id : Bytes) (vout : ℤ) (before : List Utxo) (u : Utxo) (rest : List Utxo)
    → IsIndexed ab
    → ab.utxos ≡ before ++ (u ∷ rest)
    → All (NotOfTx id) before
    → OfTx id u
    → has_utxo ab id vout
      ≡ (if length ab.utxos_map == 0 then any_utxo id vout ab.utxos else eq_ℤ u.vout vout)
unfolding has_utxo has_vout_at
has_utxo_cases ab id vout before u rest w e hb hu = elim (Bool-cases (length ab.utxos_map == 0)) [
  | inl z ↦ rw z (ground (arith, z))
  | inr z ↦
      let f : lookup id ab.utxos_map ≡ some (length before) =
        indexed_lookup ab id w z ∙ rw e (first_of-skip id before u rest hb hu) in
      let g : get_elem? ab.utxos (length before) ≡ some u = rw e (get_elem?-skip before u rest) in
      ground (arith, z, f, g)
]
