-- ===== src/Db/Reader/Laws.antt =====
-- Fields that stand in a row in a buffer are read one after the other.
use skyr_block_explorer.Prelude.{
  ℕ, ◌+◌, ◌≡◌, refl, sym, ap, ◌∙◌, some, List, [], ◌∷◌, ◌++◌, map, append_assoc, length,
  length-append, All, arith,
}
use skyr_block_explorer.Prelude.Bytes.{Bytes, slice_from, slice_from-append, slice_to-append}
use skyr_block_explorer.Db.Reader.{Reader, read_bytes, read_at, read_list}

-- `p` reads `v` from `bs`, whatever follows, and takes just `bs`.
abbrev pub Reads : {A : Type 0} → Reader A → Bytes → A → Type 0
Reads p bs v = (rest : Bytes) → p (bs ++ rest) ≡ some (v, length bs)

-- At the offset `l` of `buf` begins `rest`.
abbrev pub At : Bytes → ℕ → Bytes → Type 0
At buf l rest = (before : Bytes) × (buf ≡ before ++ rest) × (l ≡ length before)

pub At-start : (buf : Bytes) → At buf 0 buf
At-start buf = ([], refl, refl)

pub At-next :
    (buf : Bytes) (l : ℕ) (bs rest : Bytes) → At buf l (bs ++ rest) → At buf (l + length bs) rest
At-next buf l bs rest (before, e, el) =
    (before ++ bs, e ∙ sym (append_assoc before bs rest), omega (arith, length-append before bs))

pub slice_from-At :
    (buf : Bytes) (l : ℕ) (rest : Bytes) → At buf l rest → slice_from buf l ≡ some rest
slice_from-At buf l rest (before, e, el) = rw (e, el) (slice_from-append before rest)

pub Reads-read_bytes : (bs : Bytes) → Reads (read_bytes (length bs)) bs bs
unfolding read_bytes
Reads-read_bytes bs rest = rw (slice_to-append bs rest, read_bytes)

module _ {A : Type 0} where
  pub read_at-lem :
      (p : Reader A) (buf : Bytes) (l : ℕ) (bs rest : Bytes) (v : A)
      → At buf l (bs ++ rest)
      → Reads p bs v
      → read_at p buf l ≡ some (v, l + length bs)
  unfolding read_at
  read_at-lem p buf l bs rest v (before, e, el) h =
      rw (e, el) (rw (slice_from-append before (bs ++ rest)) (rw (h rest) refl))

  -- The packed elements of a list, in a row.
  unfoldable pub concat : (A → Bytes) → List A → Bytes
  concat enc [] = []
  concat enc (x ∷ xs) = enc x ++ concat enc xs

  pub read_list_lem :
      (p : Reader A) (enc : A → Bytes) (st : A → A) (xs : List A) (buf : Bytes) (l : ℕ)
      (rest : Bytes)
      → At buf l (concat enc xs ++ rest)
      → All (λ x. Reads p (enc x) (st x)) xs
      → read_list (length xs) p buf l ≡ some (map st xs, l + length (concat enc xs))
  unfolding read_list concat
  read_list_lem p enc st [] buf l rest a h = ap (λ n. some ([], n)) (omega arith)
  read_list_lem p enc st (x ∷ xs) buf l rest (before, e, el) h =
      let a : At buf l (enc x ++ (concat enc xs ++ rest)) =
        (before, e ∙ ap (λ t. before ++ t) (append_assoc (enc x) (concat enc xs) rest), el) in
      rw (read_at-lem p buf l (enc x) (concat enc xs ++ rest) (st x) a h.0) (
        rw
          (read_list_lem p enc st xs buf (l + length (enc x)) rest
            (At-next buf l (enc x) (concat enc xs ++ rest) a) h.1)
          (ap (λ n. some (st x ∷ map st xs, n))
            (omega (arith, length-append (enc x) (concat enc xs)))))
