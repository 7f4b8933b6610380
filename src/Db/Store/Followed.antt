-- ===== src/Db/Store/Followed.antt =====
-- db/rocksdb.go, storeTxAddresses: the pointers of the map of transactions, followed.
use skyr_block_explorer.Prelude.{
  ℕ, ◌≡◌, refl, Option, none, some, List, [], ◌∷◌, get_elem?, Bool-cases, Option-cases, inl, inr,
}
use skyr_block_explorer.Prelude.Bytes.{Bytes, bytes_eq}
use skyr_block_explorer.Prelude.GoMap.{GoMap, lookup, Distinct}
use skyr_block_explorer.Prelude.Result.{Ensures, Ensures-bind}
use skyr_block_explorer.Db.Types.{TxAddresses}
use skyr_block_explorer.Db.Store.{follow}

-- The object behind the pointer of a key, if there is one.
abbrev pub FollowsAt : List TxAddresses → Option ℕ → Option TxAddresses → Type 0
FollowsAt heap none found = found ≡ none
FollowsAt heap (some ref) found =
    (ta : TxAddresses) × (get_elem? heap ref ≡ some ta) × (found ≡ some ta)

pub record Follows (heap : List TxAddresses) (m : GoMap ℕ) (tas : GoMap TxAddresses) : Type 0 where
  pub at : (s : Bytes) → FollowsAt heap (lookup s m) (lookup s tas)
  pub distinct : Distinct tas

cons-Follows :
    (heap : List TxAddresses) (k : Bytes) (ref : ℕ) (m : GoMap ℕ) (ta : TxAddresses)
    (tas : GoMap TxAddresses)
    → get_elem? heap ref ≡ some ta
    → lookup k m ≡ none
    → Follows heap m tas
    → Follows heap ((k, ref) ∷ m) ((k, ta) ∷ tas)
unfolding lookup
cons-Follows heap k ref m ta tas e new f = record {
  at = λ s. elim (Bool-cases (bytes_eq k s)) [ inl y ↦ rw y (ta, e, refl) | inr n ↦ rw n (f.at s) ];
  distinct = (absent, f.distinct);
}
  where
    absent : lookup k tas ≡ none
    absent = rw new at (f.at k)

pub follow-Follows :
    (heap : List TxAddresses) (m : GoMap ℕ) → Distinct m → Ensures (Follows heap m) (follow heap m)
unfolding follow
follow-Follows heap [] d = record { at = λ s. unfold lookup in refl; distinct = tt }
follow-Follows heap ((k, ref) ∷ m) d = elim (Option-cases (get_elem? heap ref)) [
  | inl n ↦ rw n tt
  | inr (ta, e) ↦ rw e (
      Ensures-bind (Follows heap m) (Follows heap ((k, ref) ∷ m)) (follow heap m) _
        (follow-Follows heap m d.1) (λ tas f. cons-Follows heap k ref m ta tas e d.0 f))
]
