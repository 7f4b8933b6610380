-- ===== src/Db/Reader.antt =====
-- The way the db package reads packed records: `v, ll := p(buf[l:]); l += ll`, one field after
-- another. A reader gives the value and the number of bytes that it took, and `none` where the slice
-- expression or the reader panics.
pub mod Laws
pub mod Fields
pub mod Values
use skyr_block_explorer.Prelude.{ℕ, zero, suc, ◌+◌, Option, none, some, List, [], ◌∷◌}
use skyr_block_explorer.Prelude.Bytes.{Bytes, slice_from, slice_to}

infixl 5 ◌>>=◌
abbrev pub ◌>>=◌ {ℓ κ} : {A : Type ℓ} {B : Type κ} → Option A → (A → Option B) → Option B
none >>= f = none
some a >>= f = f a

abbrev pub Reader : Type 0 → Type 0
Reader A = Bytes → Option (A × ℕ)

-- `buf[:n]`, copied.
unfoldable pub read_bytes : ℕ → Reader Bytes
read_bytes n buf = do s ← slice_to buf n; some (s, n)

module _ {A : Type 0} where
  unfoldable pub read_at : Reader A → Bytes → ℕ → Option (A × ℕ)
  read_at p buf l = do rest ← slice_from buf l; (v, ll) ← p rest; some (v, l + ll)

  -- `for i := 0; i < n; i++ { l += p(&xs[i], buf[l:]) }`
  unfoldable pub read_list : ℕ → Reader A → Bytes → ℕ → Option (List A × ℕ)
  read_list zero p buf l = some ([], l)
  read_list (suc n) p buf l = do
    (x, l') ← read_at p buf l
    (xs, l'') ← read_list n p buf l'
    some (x ∷ xs, l'')
