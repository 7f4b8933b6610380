-- ===== src/Db/Tests/Utxos.antt =====
-- Runs of the theorems on the outputs of a balance.
use skyr_block_explorer.Prelude.{
  ◌≡◌, refl, false, ◌==◌, List, [], ◌∷◌, ◌++◌, length, if◌then◌else◌, All,
}
use skyr_block_explorer.Prelude.Int.{pos, eq_ℤ}
use skyr_block_explorer.Prelude.Bytes.{bytes_eq}
use skyr_block_explorer.Prelude.GoMap.{lookup, insert}
use skyr_block_explorer.Db.Types.{Utxo, AddrBalance}
use skyr_block_explorer.Db.Utxos.{add_utxo, mark_utxo_as_spent, mark_linear, has_utxo, any_utxo}
use skyr_block_explorer.Db.Utxos.Index.{IsIndexed, add_utxo-IsIndexed}
use skyr_block_explorer.Db.Utxos.Spend.{
  mark_utxo_as_spent_together, mark_utxo_as_spent_blocked, has_utxo_cases, NotOfTx,
}
use skyr_block_explorer.Db.AddrBalance.{empty_balance}
use skyr_block_explorer.Db.AddrBalance.Order.{IsIndexed-nil}
use skyr_block_explorer.Db.Tests.{out}

-- Balances with an index: outputs are added one by one.
abbrev add_all : List Utxo → AddrBalance → AddrBalance
add_all [] ab = ab
add_all (u ∷ us) ab = add_all us (add_utxo ab u)

add_all-IsIndexed : (us : List Utxo) (ab : AddrBalance) → IsIndexed ab → IsIndexed (add_all us ab)
add_all-IsIndexed [] ab w = w
add_all-IsIndexed (u ∷ us) ab w = add_all-IsIndexed us (add_utxo ab u) (add_utxo-IsIndexed ab u w)

abbrev others : List Utxo
others =
    out 10 (pos 7)
    ∷ out 11 (pos 7)
    ∷ out 12 (pos 7)
    ∷ out 13 (pos 7)
    ∷ out 14 (pos 7)
    ∷ out 15 (pos 7)
    ∷ out 16 (pos 7)
    ∷ out 17 (pos 7)
    ∷ out 18 (pos 7)
    ∷ out 19 (pos 7)
    ∷ out 20 (pos 7)
    ∷ out 21 (pos 7)
    ∷ out 22 (pos 7)
    ∷ []

abbrev many : AddrBalance
many =
    add_all (others ++ out 1 (pos 0) ∷ out 2 (pos 5) ∷ out 1 (pos 5) ∷ out 1 (pos 6) ∷ [])
      empty_balance

many-IsIndexed : IsIndexed many
many-IsIndexed =
    add_all-IsIndexed (others ++ out 1 (pos 0) ∷ out 2 (pos 5) ∷ out 1 (pos 5) ∷ out 1 (pos 6) ∷ [])
      empty_balance (IsIndexed-nil empty_balance refl refl)

many-utxos :
    many.utxos ≡ others ++ out 1 (pos 0) ∷ out 2 (pos 5) ∷ out 1 (pos 5) ∷ out 1 (pos 6) ∷ []
unfolding add_utxo
many-utxos = refl

many-indexed : (length many.utxos_map == 0) ≡ false
unfolding add_utxo insert lookup bytes_eq
many-indexed = refl

others-NotOfTx : All (NotOfTx (1 ∷ [])) others
others-NotOfTx = (
  λ e. cc,
  (
    λ e. cc,
    (
      λ e. cc,
      (
        λ e. cc,
        (
          λ e. cc,
          (
            λ e. cc,
            (λ e. cc, (λ e. cc, (λ e. cc, (λ e. cc, (λ e. cc, (λ e. cc, (λ e. cc, tt))))))),
          ),
        ),
      ),
    ),
  ),
)

mark_utxo_as_spent_blocked_example : (mark_utxo_as_spent many (1 ∷ []) (pos 5)).utxos ≡ many.utxos
mark_utxo_as_spent_blocked_example =
    mark_utxo_as_spent_blocked many (1 ∷ []) (pos 5) others (out 1 (pos 0)) (out 2 (pos 5))
      (out 1 (pos 5) ∷ out 1 (pos 6) ∷ []) many-IsIndexed many-indexed many-utxos others-NotOfTx
      refl (λ e. cc) (λ e. cc) refl

has_utxo_cases_example : has_utxo many (1 ∷ []) (pos 5) ≡ (
    if length many.utxos_map == 0
    then any_utxo (1 ∷ []) (pos 5) many.utxos
    else eq_ℤ (pos 0) (pos 5))
has_utxo_cases_example =
    has_utxo_cases many (1 ∷ []) (pos 5) others (out 1 (pos 0)) _ many-IsIndexed many-utxos
      others-NotOfTx refl

-- The outputs of one transaction together, behind those of others.
abbrev together : AddrBalance
together =
    add_all (others ++ out 1 (pos 0) ∷ out 1 (pos 5) ∷ out 1 (pos 6) ∷ out 2 (pos 5) ∷ [])
      empty_balance

together-utxos :
    together.utxos
    ≡ others ++ ((out 1 (pos 0) ∷ out 1 (pos 5) ∷ out 1 (pos 6) ∷ []) ++ out 2 (pos 5) ∷ [])
unfolding add_utxo
together-utxos = refl

together-IsIndexed : IsIndexed together
together-IsIndexed =
    add_all-IsIndexed (others ++ out 1 (pos 0) ∷ out 1 (pos 5) ∷ out 1 (pos 6) ∷ out 2 (pos 5) ∷ [])
      empty_balance (IsIndexed-nil empty_balance refl refl)

mark_utxo_as_spent_together_example :
    (mark_utxo_as_spent together (1 ∷ []) (pos 5)).utxos
    ≡ others
      ++ (mark_linear (1 ∷ []) (pos 5) (out 1 (pos 0) ∷ out 1 (pos 5) ∷ out 1 (pos 6) ∷ [])
          ++ out 2 (pos 5) ∷ [])
mark_utxo_as_spent_together_example =
    mark_utxo_as_spent_together together (1 ∷ []) (pos 5) others
      (out 1 (pos 0) ∷ out 1 (pos 5) ∷ out 1 (pos 6) ∷ []) (out 2 (pos 5) ∷ []) together-IsIndexed
      together-utxos others-NotOfTx (refl, (refl, (refl, tt))) (λ e. cc, tt)
