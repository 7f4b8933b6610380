-- ===== src/Db/TxAddresses/RoundTrip.antt =====
-- db/rocksdb.go, packTxAddresses and unpackTxAddresses: on reading records back.
use native.Mathlib.Nat.{mod-eq_of_lt}
use skyr_block_explorer.Prelude.{
  ℕ, ◌+◌, ◌^◌, ◌<◌, ◌≡◌, refl, ap, ◌∙◌, Bool, true, false, some, List, [], ◌∷◌, ◌++◌, map,
  append_assoc, length, length-append, All, arith,
}
use skyr_block_explorer.Prelude.Int.{ℤ, pos, abs, complement}
use skyr_block_explorer.Prelude.Bytes.{Bytes}
use skyr_block_explorer.Db.Vlq.{Vlq, VlqLaws, pack_varint, pack_varuint, unpack_varuint}
use skyr_block_explorer.Db.Bigint.{pack_bigint, unpack_bigint}
use skyr_block_explorer.Db.Reader.{Reader, read_bytes, read_at, read_list}
use skyr_block_explorer.Db.Reader.Laws.{
  Reads, At, At-next, Reads-read_bytes, read_at-lem, concat, read_list_lem,
}
use skyr_block_explorer.Db.Reader.Fields.{
  FitsBigint, Reads-varuint, Reads-varint, Reads-bigint, At-first,
}
use skyr_block_explorer.Db.Types.{TxInput, TxOutput, TxAddresses}
use skyr_block_explorer.Db.TxAddresses.{
  append_tx_input, append_tx_output, append_inputs, append_outputs, pack_tx_addresses,
  unpack_tx_input, unpack_tx_output, unpack_tx_addresses,
}

abbrev pub stored_input : TxInput → TxInput
stored_input x = record x { value_sat = pos (abs x.value_sat) }

abbrev pub stored_output : TxOutput → TxOutput
stored_output x = record x { value_sat = pos (abs x.value_sat) }

pub record FitsInput (x : TxInput) : Type 0 where
  pub desc : length x.addr_desc < 2 ^ 63
  pub value : FitsBigint x.value_sat

pub record FitsOutput (x : TxOutput) : Type 0 where
  pub desc : length x.addr_desc < 2 ^ 63
  pub value : FitsBigint x.value_sat

-- The sizes that machine integers and packed amounts can hold.
pub record FitsTxAddresses (ta : TxAddresses) : Type 0 where
  pub height : ta.height < 2 ^ 32
  pub inputs : length ta.inputs < 2 ^ 63
  pub outputs : length ta.outputs < 2 ^ 63
  pub each_input : All FitsInput ta.inputs
  pub each_output : All FitsOutput ta.outputs
  pub shield_ins : ta.shield_ins < 2 ^ 32
  pub shield_outs : ta.shield_outs < 2 ^ 32
  pub shield_val_bal : FitsBigint ta.shield_val_bal

-- What a stored record says: the amounts without their signs.
abbrev pub stored : TxAddresses → TxAddresses
stored ta = record ta {
  inputs = map stored_input ta.inputs;
  outputs = map stored_output ta.outputs;
  shield_val_bal = pos (abs ta.shield_val_bal);
}

-- A descriptor and an amount behind the field `a`.
desc_value :
    (a b : Bytes) (value : ℤ) (rest : Bytes)
    → FitsBigint value
    → (read_at (read_bytes (length b)) (a ++ (b ++ (pack_bigint value ++ rest))) (length a)
        ≡ some (b, length a + length b))
      × (read_at unpack_bigint (a ++ (b ++ (pack_bigint value ++ rest))) (length a + length b)
          ≡ some (pos (abs value), length (a ++ (b ++ pack_bigint value))))
desc_value a b value rest h =
    let c = pack_bigint value in
    let buf = a ++ (b ++ (c ++ rest)) in
    let at1 = At-first a (b ++ (c ++ rest)) in
    let at2 = At-next buf (length a) b (c ++ rest) at1 in
    (
      read_at-lem (read_bytes (length b)) buf (length a) b (c ++ rest) b at1 (Reads-read_bytes b),
      read_at-lem unpack_bigint buf (length a + length b) c rest (pos (abs value)) at2
            (Reads-bigint value h)
          ∙ ap (λ n. some (pos (abs value), n))
              (omega (arith, length-append a (b ++ c), length-append b c)),
    )

regroup : (a b c rest : Bytes) → (a ++ (b ++ c)) ++ rest ≡ a ++ (b ++ (c ++ rest))
regroup a b c rest = simp append_assoc

module _ {v : Vlq} (laws : VlqLaws v) where
  Reads-tx_input :
      (x : TxInput) → FitsInput x → Reads (unpack_tx_input v) (append_tx_input v x) (stored_input x)
  unfolding append_tx_input unpack_tx_input
  Reads-tx_input x h rest =
      let b = x.addr_desc in
      let a = pack_varuint v (length b) in
      let c = pack_bigint x.value_sat in
      let (e1, e2) = desc_value a b x.value_sat rest h.value in
      rw
        (
          regroup a b c rest,
          Reads-varuint laws (length b) (omega (arith, h.desc)) (b ++ (c ++ rest)),
        )
        (rw (e1, e2) refl)

  -- `len` is what the sign of the packed length gives back.
  Reads-output_fields :
      (spent : Bool) (b : Bytes) (value : ℤ)
      → length b < 2 ^ 63
      → FitsBigint value
      → Reads
          (unpack_tx_output v)
          (append_tx_output v (record { addr_desc = b; spent = spent; value_sat = value }))
          (record { addr_desc = b; spent = spent; value_sat = pos (abs value) })
  unfolding append_tx_output unpack_tx_output
  Reads-output_fields true b value hb hv rest =
      let al = complement (pos (length b)) in
      let a = pack_varint v al in
      let c = pack_bigint value in
      let (e1, e2) = desc_value a b value rest hv in
      rw (regroup a b c rest, Reads-varint laws al hb (b ++ (c ++ rest))) (rw (e1, e2) refl)
  Reads-output_fields false b value hb hv rest =
      let al = pos (length b) in
      let a = pack_varint v al in
      let c = pack_bigint value in
      let (e1, e2) = desc_value a b value rest hv in
      rw (regroup a b c rest, Reads-varint laws al hb (b ++ (c ++ rest))) (rw (e1, e2) refl)

  Reads-inputs :
      (xs : List TxInput)
      → All FitsInput xs
      → All (λ x. Reads (unpack_tx_input v) (append_tx_input v x) (stored_input x)) xs
  Reads-inputs [] h = tt
  Reads-inputs (x ∷ xs) h = (Reads-tx_input x h.0, Reads-inputs xs h.1)

  Reads-outputs :
      (xs : List TxOutput)
      → All FitsOutput xs
      → All (λ x. Reads (unpack_tx_output v) (append_tx_output v x) (stored_output x)) xs
  Reads-outputs [] h = tt
  Reads-outputs (x ∷ xs) h =
      (Reads-output_fields x.spent x.addr_desc x.value_sat h.0.desc h.0.value, Reads-outputs xs h.1)

  append_inputs-concat : (xs : List TxInput) → append_inputs v xs ≡ concat (append_tx_input v) xs
  unfolding append_inputs concat
  append_inputs-concat [] = refl
  append_inputs-concat (x ∷ xs) = ap (λ r. append_tx_input v x ++ r) (append_inputs-concat xs)

  append_outputs-concat :
      (xs : List TxOutput) → append_outputs v xs ≡ concat (append_tx_output v) xs
  unfolding append_outputs concat
  append_outputs-concat [] = refl
  append_outputs-concat (x ∷ xs) = ap (λ r. append_tx_output v x ++ r) (append_outputs-concat xs)

  -- The three numbers behind the outputs.
  shield_fields :
      (buf : Bytes) (l i o : ℕ) (z : ℤ) (rest : Bytes)
      → At buf l (pack_varuint v i ++ (pack_varuint v o ++ (pack_bigint z ++ rest)))
      → i < 2 ^ 32
      → o < 2 ^ 32
      → FitsBigint z
      → (l1 : ℕ) × (l2 : ℕ) × (l3 : ℕ) × (read_at (unpack_varuint v) buf l ≡ some (i, l1))
        × (read_at (unpack_varuint v) buf l1 ≡ some (o, l2))
        × (read_at unpack_bigint buf l2 ≡ some (pos (abs z), l3))
  shield_fields buf l i o z rest at5 hi ho hz =
      let f = pack_varuint v i in
      let g = pack_varuint v o in
      let k = pack_bigint z in
      let at6 = At-next buf l f (g ++ (k ++ rest)) at5 in
      let at7 = At-next buf (l + length f) g (k ++ rest) at6 in
      (
        l + length f,
        l + length f + length g,
        l + length f + length g + length k,
        read_at-lem (unpack_varuint v) buf l f (g ++ (k ++ rest)) i at5
            (Reads-varuint laws i (omega arith)),
        read_at-lem (unpack_varuint v) buf (l + length f) g (k ++ rest) o at6
            (Reads-varuint laws o (omega arith)),
        read_at-lem unpack_bigint buf (l + length f + length g) k rest (pos (abs z)) at7
            (Reads-bigint z hz),
      )

  -- A counted list: its length, and then its elements.
  counted :
      {A : Type 0} (p : Reader A) (enc : A → Bytes) (st : A → A) (xs : List A) (buf : Bytes) (l : ℕ)
      (rest : Bytes)
      → At buf l (pack_varuint v (length xs) ++ (concat enc xs ++ rest))
      → length xs < 2 ^ 63
      → All (λ x. Reads p (enc x) (st x)) xs
      → (l1 : ℕ) × (l2 : ℕ) × (read_at (unpack_varuint v) buf l ≡ some (length xs, l1))
        × (read_list (length xs) p buf l1 ≡ some (map st xs, l2))
        × At buf l2 rest
  counted p enc st xs buf l rest at1 hn hx =
      let b = pack_varuint v (length xs) in
      let c = concat enc xs in
      let at2 = At-next buf l b (c ++ rest) at1 in
      (
        l + length b,
        l + length b + length c,
        read_at-lem (unpack_varuint v) buf l b (c ++ rest) (length xs) at1
            (Reads-varuint laws (length xs) (omega arith)),
        read_list_lem p enc st xs buf (l + length b) rest at2 hx,
        At-next buf (l + length b) c rest at2,
      )

  -- For a codec of numbers with the laws of the documentation, a transaction record whose sizes fit
  -- machine integers and whose amounts are below 2 ^ 1984 is read back from what was packed,
  -- whatever follows it, except that every amount has lost its sign.
  pub unpack_tx_addresses-pack_tx_addresses :
      (ta : TxAddresses) (rest : Bytes)
      → FitsTxAddresses ta
      → unpack_tx_addresses v (pack_tx_addresses v ta ++ rest) ≡ some (stored ta)
  unfolding unpack_tx_addresses pack_tx_addresses
  unpack_tx_addresses-pack_tx_addresses ta rest h =
      let a = pack_varuint v ta.height in
      let b = pack_varuint v (length ta.inputs) in
      let c = concat (append_tx_input v) ta.inputs in
      let d = pack_varuint v (length ta.outputs) in
      let e = concat (append_tx_output v) ta.outputs in
      let f =
        pack_varuint v ta.shield_ins
        ++ (pack_varuint v ta.shield_outs ++ pack_bigint ta.shield_val_bal) in
      let r4 =
        pack_varuint v ta.shield_ins
        ++ (pack_varuint v ta.shield_outs ++ (pack_bigint ta.shield_val_bal ++ rest)) in
      let r2 = d ++ (e ++ r4) in
      let buf = a ++ (b ++ (c ++ r2)) in
      let whole : (a
              ++ (b ++ (append_inputs v ta.inputs ++ (d ++ (append_outputs v ta.outputs ++ f)))))
            ++ rest
          ≡ buf =
        rw (append_inputs-concat ta.inputs, append_outputs-concat ta.outputs) (simp append_assoc) in
      let (l1, l2, e1, e2, at3) =
        counted (unpack_tx_input v) (append_tx_input v) stored_input ta.inputs buf (length a) r2
          (At-first a (b ++ (c ++ r2))) h.inputs (Reads-inputs ta.inputs h.each_input) in
      let (l3, l4, e3, e4, at5) =
        counted (unpack_tx_output v) (append_tx_output v) stored_output ta.outputs buf l2 r4 at3
          h.outputs (Reads-outputs ta.outputs h.each_output) in
      let (l5, l6, l7, e5, e6, e7) =
        shield_fields buf l4 ta.shield_ins ta.shield_outs ta.shield_val_bal rest at5 h.shield_ins
          h.shield_outs h.shield_val_bal in
      rw (whole, Reads-varuint laws ta.height (omega (arith, h.height)) (b ++ (c ++ r2)))
        (rw e1 (
          rw e2 (
            rw e3 (
              rw e4 (
                rw e5 (
                  rw e6 (
                    rw e7 (
                      rw
                        (
                          mod-eq_of_lt h.height,
                          mod-eq_of_lt h.shield_ins,
                          mod-eq_of_lt h.shield_outs,
                        )
                        refl))))))))
