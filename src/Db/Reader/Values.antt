-- ===== src/Db/Reader/Values.antt =====
-- What holds of the values that a reader gives, whatever the bytes are.
use skyr_block_explorer.Prelude.{
  ℕ, zero, suc, ◌≡◌, refl, false, Option, none, some, [], ◌∷◌, All, Option-cases, inl, inr,
}
use skyr_block_explorer.Prelude.Int.{is_neg}
use skyr_block_explorer.Prelude.Bytes.{Bytes, slice_from, slice_to}
use skyr_block_explorer.Prelude.Result.{Gives}
use skyr_block_explorer.Db.Bigint.{unpack_bigint}
use skyr_block_explorer.Db.Reader.{Reader, ◌>>=◌, read_at, read_list}

pub Gives-bind :
    {A B : Type 0} (Q : A → Type 0) (P : B → Type 0) (m : Option A) (f : A → Option B)
    → Gives Q m
    → ((a : A) → Q a → Gives P (f a))
    → Gives P (m >>= f)
Gives-bind Q P none f h k = tt
Gives-bind Q P (some a) f h k = k a h

-- Where nothing is known of the first value.
pub Gives-after :
    {A B : Type 0} (P : B → Type 0) (m : Option A) (f : A → Option B)
    → ((a : A) → Gives P (f a))
    → Gives P (m >>= f)
Gives-after P none f k = tt
Gives-after P (some a) f k = k a

module _ {A : Type 0} (P : A → Type 0) (p : Reader A)
    (h : (buf : Bytes) → Gives (λ r. P r.0) (p buf)) where
  pub read_at-Gives : (buf : Bytes) (l : ℕ) → Gives (λ r. P r.0) (read_at p buf l)
  unfolding read_at
  read_at-Gives buf l =
      Gives-after (λ r. P r.0) (slice_from buf l) _
        λ rest. Gives-bind (λ r. P r.0) (λ r. P r.0) (p rest) _ (h rest) (λ a k. k)

  pub read_list-Gives : (n : ℕ) (buf : Bytes) (l : ℕ) → Gives (λ r. All P r.0) (read_list n p buf l)
  unfolding read_list
  read_list-Gives zero buf l = tt
  read_list-Gives (suc n) buf l =
      Gives-bind (λ r. P r.0) (λ r. All P r.0) (read_at p buf l) _ (read_at-Gives buf l)
        λ a k.
          Gives-bind (λ r. All P r.0) (λ r. All P r.0) (read_list n p buf a.1) _
            (read_list-Gives n buf a.1) (λ b m. (k, m))

-- An amount that is read is never negative.
pub unpack_bigint-Gives : (buf : Bytes) → Gives (λ r. is_neg r.0 ≡ false) (unpack_bigint buf)
unfolding unpack_bigint
unpack_bigint-Gives [] = tt
unpack_bigint-Gives (b ∷ rest) = elim (Option-cases (slice_to rest b)) [
  | inl e ↦ rw (e, unpack_bigint) tt
  | inr (s, e) ↦ rw (e, unpack_bigint) refl
]
