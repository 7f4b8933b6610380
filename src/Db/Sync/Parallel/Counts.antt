-- ===== src/Db/Sync/Parallel/Counts.antt =====
-- db/sync.go: which heights the workers of ConnectBlocksParallel hold, counted.
use skyr_block_explorer.Prelude.{
  ℕ, zero, suc, ◌+◌, ◌≤◌, ◌≡◌, refl, Bool, true, false, ◌&&◌, List, [], ◌∷◌, ◌++◌, length,
  replicate, arith, All, ltb, leb, ◌==◌,
}
use skyr_block_explorer.Db.Sync.Parallel.{Worker, waiting, fetching, sending, gave_up, exited}

abbrev pub one_if : Bool → ℕ
one_if true = 1
one_if false = 0

-- Whether the worker holds the height, or gave it up.
abbrev pub holds : ℕ → Worker → ℕ
holds h (fetching hh) = one_if (hh.height == h)
holds h (sending hh b) = one_if (hh.height == h)
holds h (gave_up hh) = one_if (hh.height == h)
holds h waiting = 0
holds h exited = 0

abbrev pub busy : Worker → ℕ
busy (fetching hh) = 1
busy (sending hh b) = 1
busy (gave_up hh) = 1
busy waiting = 0
busy exited = 0

abbrev pub total : (Worker → ℕ) → List Worker → ℕ
total f [] = 0
total f (w ∷ ws) = f w + total f ws

pub total-append :
    (f : Worker → ℕ) (xs ys : List Worker) (w : Worker)
    → total f (xs ++ (w ∷ ys)) ≡ f w + (total f xs + total f ys)
total-append f [] ys w = omega arith
total-append f (x ∷ xs) ys w = omega (arith, total-append f xs ys w)

pub total-replicate : (f : Worker → ℕ) (n : ℕ) → f waiting ≡ 0 → total f (replicate n waiting) ≡ 0
total-replicate f zero z = refl
total-replicate f (suc n) z = omega (arith, z, total-replicate f n z)

-- No worker counts for more than one.
pub total-busy : (ws : List Worker) → total busy ws ≤ length ws
total-busy [] = omega arith
total-busy (waiting ∷ ws) = omega (arith, total-busy ws)
total-busy (fetching hh ∷ ws) = omega (arith, total-busy ws)
total-busy (sending hh b ∷ ws) = omega (arith, total-busy ws)
total-busy (gave_up hh ∷ ws) = omega (arith, total-busy ws)
total-busy (exited ∷ ws) = omega (arith, total-busy ws)

pub length-append_cons :
    (xs ys : List Worker) (v w : Worker) → length (xs ++ (v ∷ ys)) ≡ length (xs ++ (w ∷ ys))
length-append_cons [] ys v w = refl
length-append_cons (x ∷ xs) ys v w = omega (arith, length-append_cons xs ys v w)

pub All-replace :
    (P : Worker → Type 0) (xs ys : List Worker) (v w : Worker)
    → All P (xs ++ (v ∷ ys))
    → (P v → P w)
    → All P (xs ++ (w ∷ ys))
All-replace P [] ys v w a f = (f a.0, a.1)
All-replace P (x ∷ xs) ys v w a f = (a.0, All-replace P xs ys v w a.1 f)

pub All-at : (P : Worker → Type 0) (xs ys : List Worker) (w : Worker) → All P (xs ++ (w ∷ ys)) → P w
All-at P [] ys w a = a.0
All-at P (x ∷ xs) ys w a = All-at P xs ys w a.1

-- Whether a height is between two others, the upper one excluded.
abbrev pub between : ℕ → ℕ → ℕ → ℕ
between e t h = one_if (leb e h && ltb h t)
