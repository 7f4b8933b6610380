-- ===== src/Db/Disconnect/Settled.antt =====
-- db/rocksdb.go, storeBalancesDisconnect: on the outputs that are left.
use skyr_block_explorer.Prelude.{
  ℕ, ◌≤◌, ◌≡◌, refl, ◌∙◌, false, not, List, [], ◌∷◌, arith, All, ltb, ◌==◌, if◌then◌else◌,
  Bool-cases, inl, inr,
}
use skyr_block_explorer.Prelude.Int.{is_neg}
use skyr_block_explorer.Db.Types.{Utxo}
use skyr_block_explorer.Db.Disconnect.{unspent, insert_by_height, sort_by_height}

-- In ascending order of the heights.
abbrev pub IsSorted : List Utxo → Type 0
IsSorted [] = Unit
IsSorted (u ∷ us) = All (λ (w : Utxo). u.height ≤ w.height) us × IsSorted us

-- The outputs of a height that are not spent, in their order.
unfoldable pub live_at : ℕ → List Utxo → List Utxo
live_at h [] = []
live_at h (u ∷ us) =
    let rest = live_at h us in
    if u.height == h then (if not (is_neg u.vout) then u ∷ rest else rest) else rest

-- The outputs of a height, in their order.
all_at : ℕ → List Utxo → List Utxo
all_at h [] = []
all_at h (u ∷ us) = let rest = all_at h us in if u.height == h then u ∷ rest else rest

All-insert :
    (P : Utxo → Type 0) (u : Utxo) (us : List Utxo) → P u → All P us → All P (insert_by_height u us)
unfolding insert_by_height
All-insert P u [] p h = (p, tt)
All-insert P u (w ∷ us) p h = elim (Bool-cases (ltb w.height u.height)) [
  | inl e ↦ rw e (h.0, All-insert P u us p h.1)
  | inr e ↦ rw e (p, h)
]

All-above :
    (a b : ℕ) (us : List Utxo)
    → a ≤ b
    → All (λ (w : Utxo). b ≤ w.height) us
    → All (λ (w : Utxo). a ≤ w.height) us
All-above a b [] h k = tt
All-above a b (u ∷ us) h k = (omega (arith, k.0), All-above a b us h k.1)

insert-IsSorted : (u : Utxo) (us : List Utxo) → IsSorted us → IsSorted (insert_by_height u us)
unfolding insert_by_height
insert-IsSorted u [] h = (tt, tt)
insert-IsSorted u (w ∷ us) h = elim (Bool-cases (ltb w.height u.height)) [
  | inl e ↦ rw e (
    All-insert (λ (x : Utxo). w.height ≤ x.height) u us (ground (arith, e)) h.0,
    insert-IsSorted u us h.1,
  )
  | inr e ↦
      let le : u.height ≤ w.height = ground (arith, e) in
      rw e ((le, All-above u.height w.height us le h.0), h)
]

sort-IsSorted : (us : List Utxo) → IsSorted (sort_by_height us)
unfolding sort_by_height
sort-IsSorted [] = tt
sort-IsSorted (u ∷ us) = insert-IsSorted u (sort_by_height us) (sort-IsSorted us)

all_at-insert :
    (h : ℕ) (u : Utxo) (us : List Utxo)
    → all_at h (insert_by_height u us) ≡ (if u.height == h then u ∷ all_at h us else all_at h us)
unfolding all_at insert_by_height
all_at-insert h u [] = ground arith
all_at-insert h u (w ∷ us) = ground (arith, all_at-insert h u us)

all_at-sort : (h : ℕ) (us : List Utxo) → all_at h (sort_by_height us) ≡ all_at h us
unfolding all_at sort_by_height
all_at-sort h [] = refl
all_at-sort h (u ∷ us) = ground (arith, all_at-insert h u (sort_by_height us), all_at-sort h us)

all_at-unspent : (h : ℕ) (us : List Utxo) → all_at h (unspent us) ≡ live_at h us
unfolding all_at unspent live_at
all_at-unspent h [] = refl
all_at-unspent h (u ∷ us) = ground (arith, all_at-unspent h us)

All-unspent : (us : List Utxo) → All (λ (u : Utxo). is_neg u.vout ≡ false) (unspent us)
unfolding unspent
All-unspent [] = tt
All-unspent (u ∷ us) = elim (Bool-cases (is_neg u.vout)) [
  | inl e ↦ rw e (All-unspent us)
  | inr e ↦ rw e (e, All-unspent us)
]

live_at-all :
    (h : ℕ) (us : List Utxo)
    → All (λ (u : Utxo). is_neg u.vout ≡ false) us
    → live_at h us ≡ all_at h us
unfolding live_at all_at
live_at-all h [] k = refl
live_at-all h (u ∷ us) k = ground (arith, k.0, live_at-all h us k.1)

All-sort : (P : Utxo → Type 0) (us : List Utxo) → All P us → All P (sort_by_height us)
unfolding sort_by_height
All-sort P [] h = h
All-sort P (u ∷ us) h = All-insert P u (sort_by_height us) h.0 (All-sort P us h.1)

-- The outputs that are left of a balance when blocks are taken back are not spent, are in the order
-- of their heights, and of each height are just those that were not spent, in their order.
pub sort_by_height-unspent :
    (us : List Utxo)
    → IsSorted (sort_by_height (unspent us))
      × (All (λ (u : Utxo). is_neg u.vout ≡ false) (sort_by_height (unspent us))
          × ((h : ℕ) → live_at h (sort_by_height (unspent us)) ≡ live_at h us))
sort_by_height-unspent us =
    let live = All-sort (λ (u : Utxo). is_neg u.vout ≡ false) (unspent us) (All-unspent us) in
    (
      sort-IsSorted (unspent us),
      (
        live,
        λ h.
            live_at-all h (sort_by_height (unspent us)) live
            ∙ all_at-sort h (unspent us)
            ∙ all_at-unspent h us,
      ),
    )
