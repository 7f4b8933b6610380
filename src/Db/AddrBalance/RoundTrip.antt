-- ===== src/Db/AddrBalance/RoundTrip.antt =====
-- db/rocksdb.go, packAddrBalance and unpackAddrBalance: on reading balances back.
use native.Mathlib.Nat.{mod-eq_of_lt}
use mathlib.Core.Path.{subst}
use mathlib.Core.List.{foldl}
use skyr_block_explorer.Prelude.{
  ℕ, zero, suc, ◌+◌, ◌%◌, ◌^◌, ◌≤◌, ◌<◌, ◌≡◌, refl, sym, ap, ◌∙◌, true, false, not, some, List, [],
  ◌∷◌, ◌++◌, append_assoc, append-nil, length, length-append, All, arith, leb, if◌then◌else◌,
  Bool-cases, inl, inr,
}
use skyr_block_explorer.Prelude.Int.{ℤ, pos, abs, is_neg, to_int32, FitsInt, to_int32_id}
use skyr_block_explorer.Prelude.Bytes.{Bytes}
use skyr_block_explorer.Db.Vlq.{Vlq, VlqLaws, pack_varuint, unpack_varuint}
use skyr_block_explorer.Db.Bigint.{pack_bigint, unpack_bigint}
use skyr_block_explorer.Db.Bigint.RoundTrip.{length-pack_bigint}
use skyr_block_explorer.Db.Reader.Laws.{
  Reads, At, At-next, slice_from-At, Reads-read_bytes, read_at-lem,
}
use skyr_block_explorer.Db.Reader.Fields.{FitsBigint, Reads-varuint, Reads-bigint, At-first}
use skyr_block_explorer.Db.Types.{Utxo, AddrBalance}
use skyr_block_explorer.Db.Utxos.{add_utxo}
use skyr_block_explorer.Db.AddrBalance.{
  AddressBalanceDetail, no_utxo, utxo, utxo_indexed, pack_utxo, pack_utxos, pack_addr_balance,
  unpack_utxo, add_unpacked, unpack_utxos, with_utxos, unpack_addr_balance,
}

-- An output as it is stored, and the ones that are.
abbrev pub stored_utxo : Utxo → Utxo
stored_utxo u = record u { value_sat = pos (abs u.value_sat) }

abbrev pub live : List Utxo → List Utxo
live [] = []
live (u ∷ us) = if not (is_neg u.vout) then stored_utxo u ∷ live us else live us

pub record FitsUtxo (txid_len : ℕ) (u : Utxo) : Type 0 where
  pub id : length u.btx_id ≡ txid_len
  pub vout : FitsInt 31 u.vout
  pub height : u.height < 2 ^ 32
  pub value : FitsBigint u.value_sat

pub record FitsAddrBalance (txid_len : ℕ) (ab : AddrBalance) : Type 0 where
  pub txs : ab.txs < 2 ^ 32
  pub sent : FitsBigint ab.sent_sat
  pub balance : FitsBigint ab.balance_sat
  pub utxos : All (FitsUtxo txid_len) ab.utxos

abs-is_neg : (z : ℤ) → is_neg z ≡ false → pos (abs z) ≡ z
abs-is_neg z h = ground arith

-- What the index has of a balance after it was stored: the amounts without their signs, and the
-- outputs that are not spent, as a plain list or added one by one with their index.
abbrev pub stored_totals : AddrBalance → List Utxo → AddrBalance
stored_totals ab utxos = record {
  txs = ab.txs;
  sent_sat = pos (abs ab.sent_sat);
  balance_sat = pos (abs ab.balance_sat);
  utxos = utxos;
  utxos_map = [];
}

unfoldable pub stored_balance : AddrBalance → AddressBalanceDetail → AddrBalance
stored_balance ab no_utxo = stored_totals ab []
stored_balance ab utxo = stored_totals ab (live ab.utxos)
stored_balance ab utxo_indexed = foldl add_utxo (stored_totals ab []) (live ab.utxos)

module _ {v : Vlq} (laws : VlqLaws v) (txid_len : ℕ) where
  Reads-utxo :
      (u : Utxo)
      → FitsUtxo txid_len u
      → is_neg u.vout ≡ false
      → Reads (unpack_utxo v txid_len) (pack_utxo v u) (stored_utxo u)
  unfolding unpack_utxo pack_utxo
  Reads-utxo u h live rest =
      let a = u.btx_id in
      let b = pack_varuint v (abs u.vout) in
      let c = pack_varuint v u.height in
      let d = pack_bigint u.value_sat in
      let buf = a ++ (b ++ (c ++ (d ++ rest))) in
      let whole : (a ++ (b ++ (c ++ d))) ++ rest ≡ buf = simp append_assoc in
      let at1 = At-first a (b ++ (c ++ (d ++ rest))) in
      let at2 = At-next buf (length a) b (c ++ (d ++ rest)) at1 in
      let at3 = At-next buf (length a + length b) c (d ++ rest) at2 in
      let small : abs u.vout < 2 ^ 31 = ground (arith, h.vout) in
      let vout : to_int32 (pos (abs u.vout)) ≡ u.vout =
        to_int32_id (pos (abs u.vout)) small ∙ abs-is_neg u.vout live in
      let fields : ◌≡◌ {A = Utxo}
          (record {
            btx_id = a;
            vout = to_int32 (pos (abs u.vout));
            height = u.height % 2 ^ 32;
            value_sat = pos (abs u.value_sat);
          })
          (stored_utxo u) =
        λ i. record {
          btx_id = a;
          vout = vout i;
          height = mod-eq_of_lt h.height i;
          value_sat = pos (abs u.value_sat);
        } in
      let size : length a + length b + length c + length d ≡ length (a ++ (b ++ (c ++ d))) =
        omega
          (arith, length-append a (b ++ (c ++ d)), length-append b (c ++ d), length-append c d) in
      rw (whole, ← h.id)
        (rw (Reads-read_bytes a (b ++ (c ++ (d ++ rest)))) (
          rw
            (read_at-lem (unpack_varuint v) buf (length a) b (c ++ (d ++ rest)) (abs u.vout) at1
              (Reads-varuint laws (abs u.vout) (omega arith)))
            (rw
              (read_at-lem (unpack_varuint v) buf (length a + length b) c (d ++ rest) u.height at2
                (Reads-varuint laws u.height (omega (arith, h.height))))
              (rw
                (read_at-lem unpack_bigint buf (length a + length b + length c) d rest
                  (pos (abs u.value_sat)) at3 (Reads-bigint u.value_sat h.value))
                (λ i. some (fields i, size i))))))

  length-pack_utxo : (u : Utxo) → FitsUtxo txid_len u → txid_len + 3 ≤ length (pack_utxo v u)
  unfolding pack_utxo pack_varuint
  length-pack_utxo u h =
      let b = v.put_uint (abs u.vout) in
      let c = v.put_uint u.height in
      let d = pack_bigint u.value_sat in
      omega (
        arith,
        h.id,
        length-append u.btx_id (b ++ (c ++ d)),
        length-append b (c ++ d),
        length-append c d,
        laws.put_uint-pos (abs u.vout),
        laws.put_uint-pos u.height,
        (length-pack_bigint u.value_sat).0,
      )

  -- More bytes are packed than outputs are stored: enough fuel.
  length-live :
      (us : List Utxo) → All (FitsUtxo txid_len) us → length (live us) ≤ length (pack_utxos v us)
  unfolding pack_utxos
  length-live [] h = omega arith
  length-live (u ∷ us) h = ground (
    arith,
    length-live us h.1,
    length-pack_utxo u h.0,
    length-append (pack_utxo v u) (pack_utxos v us),
  )

  unpack_utxos_last :
      (fuel : ℕ) (detail : AddressBalanceDetail) (buf : Bytes) (l : ℕ) (ab : AddrBalance)
      → At buf l []
      → unpack_utxos v txid_len (suc fuel) detail buf l ab ≡ some ab
  unfolding unpack_utxos
  unpack_utxos_last fuel detail buf l ab at = rw (slice_from-At buf l [] at) (ground arith)

  unpack_utxos_next :
      (fuel : ℕ) (detail : AddressBalanceDetail) (buf : Bytes) (l : ℕ) (ab : AddrBalance) (u : Utxo)
      (rest : Bytes)
      → FitsUtxo txid_len u
      → is_neg u.vout ≡ false
      → At buf l (pack_utxo v u ++ rest)
      → unpack_utxos v txid_len (suc fuel) detail buf l ab
        ≡ unpack_utxos v txid_len fuel detail buf
            (l + length (pack_utxo v u))
            (add_unpacked v txid_len detail ab (stored_utxo u))
  unfolding unpack_utxos
  unpack_utxos_next fuel detail buf l ab u rest h keep at =
      let long : leb (txid_len + 3) (length (pack_utxo v u ++ rest)) ≡ true =
        ground (arith, length-pack_utxo u h, length-append (pack_utxo v u) rest) in
      ground (
        arith,
        long,
        slice_from-At buf l (pack_utxo v u ++ rest) at,
        read_at-lem (unpack_utxo v txid_len) buf l (pack_utxo v u) rest (stored_utxo u) at
            (Reads-utxo u h keep),
      )

  pack_utxos_spent :
      (u : Utxo) (us : List Utxo) → is_neg u.vout ≡ true → pack_utxos v (u ∷ us) ≡ pack_utxos v us
  unfolding pack_utxos
  pack_utxos_spent u us e = ground arith

  pack_utxos_kept :
      (u : Utxo) (us : List Utxo)
      → is_neg u.vout ≡ false
      → pack_utxos v (u ∷ us) ≡ pack_utxo v u ++ pack_utxos v us
  unfolding pack_utxos
  pack_utxos_kept u us e = ground arith

  unpack_utxos-pack_utxos :
      (us : List Utxo) (fuel : ℕ) (detail : AddressBalanceDetail) (buf : Bytes) (l : ℕ)
      (ab : AddrBalance)
      → All (FitsUtxo txid_len) us
      → At buf l (pack_utxos v us)
      → length (live us) < fuel
      → unpack_utxos v txid_len fuel detail buf l ab
        ≡ some (foldl (add_unpacked v txid_len detail) ab (live us))
  unpack_utxos-pack_utxos us zero detail buf l ab h at lt = elim lt [ ]
  unpack_utxos-pack_utxos [] (suc fuel) detail buf l ab h at lt =
      unpack_utxos_last fuel detail buf l ab (unfold pack_utxos in at)
  unpack_utxos-pack_utxos (u ∷ us) (suc fuel) detail buf l ab h at lt =
      elim (Bool-cases (is_neg u.vout)) [
        | inl spent ↦
            let fewer : length (live us) < suc fuel = rw spent at lt in
            rw spent (
              unpack_utxos-pack_utxos us (suc fuel) detail buf l ab h.1
                (subst (At buf l) (pack_utxos_spent u us spent) at) fewer)
        | inr keep ↦
            let fewer : suc (length (live us)) < suc fuel = rw keep at lt in
            let at' = subst (At buf l) (pack_utxos_kept u us keep) at in
            rw keep (
              unpack_utxos_next fuel detail buf l ab u (pack_utxos v us) h.0 keep at'
              ∙ unpack_utxos-pack_utxos us fuel detail buf (l + length (pack_utxo v u))
                  (add_unpacked v txid_len detail ab (stored_utxo u)) h.1
                  (At-next buf l (pack_utxo v u) (pack_utxos v us) at') (omega arith))
      ]

  enough :
      (us : List Utxo) (buf : Bytes) (l : ℕ)
      → All (FitsUtxo txid_len) us
      → At buf l (pack_utxos v us)
      → length (live us) < suc (length buf)
  enough us buf l h (before, e, el) = omega (
    arith,
    length-live us h,
    ap (λ (b : Bytes). length b) e,
    length-append before (pack_utxos v us),
  )

  foldl-plain :
      (us : List Utxo) (ab : AddrBalance)
      → foldl (add_unpacked v txid_len utxo) ab us ≡ record ab { utxos = ab.utxos ++ us }
  unfolding add_unpacked
  foldl-plain [] ab = λ i. record ab { utxos = sym (append-nil ab.utxos) i }
  foldl-plain (u ∷ us) ab =
      foldl-plain us (record ab { utxos = ab.utxos ++ u ∷ [] })
      ∙ (λ i. record ab { utxos = append_assoc ab.utxos (u ∷ []) us i })

  with_utxos-pack_utxos :
      (ab : AddrBalance) (detail : AddressBalanceDetail) (buf : Bytes) (l : ℕ)
      → All (FitsUtxo txid_len) ab.utxos
      → At buf l (pack_utxos v ab.utxos)
      → with_utxos v txid_len detail buf l (stored_totals ab []) ≡ some (stored_balance ab detail)
  unfolding with_utxos stored_balance
  with_utxos-pack_utxos ab no_utxo buf l h at = refl
  with_utxos-pack_utxos ab utxo buf l h at =
      unpack_utxos-pack_utxos ab.utxos (suc (length buf)) utxo buf l (stored_totals ab []) h at
        (enough ab.utxos buf l h at)
      ∙ ap some (foldl-plain (live ab.utxos) (stored_totals ab []))
  with_utxos-pack_utxos ab utxo_indexed buf l h at =
      unpack_utxos-pack_utxos ab.utxos (suc (length buf)) utxo_indexed buf l (stored_totals ab []) h
        at (enough ab.utxos buf l h at)
      ∙ (unfold add_unpacked in refl)

  -- For a codec with its laws, a balance whose fields fit is read back from what was packed with
  -- the outputs that are not spent, in their order, added one by one to the kind of list that is
  -- asked for, and with no outputs where none are asked for; the amounts have lost their signs.
  pub unpack_addr_balance-pack_addr_balance :
      (ab : AddrBalance) (detail : AddressBalanceDetail)
      → FitsAddrBalance txid_len ab
      → unpack_addr_balance v txid_len (pack_addr_balance v ab) detail
        ≡ some (stored_balance ab detail)
  unfolding unpack_addr_balance pack_addr_balance
  unpack_addr_balance-pack_addr_balance ab detail h =
      let a = pack_varuint v ab.txs in
      let b = pack_bigint ab.sent_sat in
      let c = pack_bigint ab.balance_sat in
      let d = pack_utxos v ab.utxos in
      let buf = a ++ (b ++ (c ++ d)) in
      let at1 = At-first a (b ++ (c ++ d)) in
      let at2 = At-next buf (length a) b (c ++ d) at1 in
      let at3 = At-next buf (length a + length b) c d at2 in
      rw (Reads-varuint laws ab.txs (omega (arith, h.txs)) (b ++ (c ++ d))) (
        rw
          (read_at-lem unpack_bigint buf (length a) b (c ++ d) (pos (abs ab.sent_sat)) at1
            (Reads-bigint ab.sent_sat h.sent))
          (rw
            (read_at-lem unpack_bigint buf (length a + length b) c d (pos (abs ab.balance_sat)) at2
              (Reads-bigint ab.balance_sat h.balance))
            (rw (mod-eq_of_lt h.txs)
              (with_utxos-pack_utxos ab detail buf (length a + length b + length c) h.utxos at3))))
