-- ===== src/Mempool/Resync/Progress.antt =====
-- bchain/mempool_bitcoin_type.go, Resync: on every order in which the workers finish.
use skyr_block_explorer.Prelude.{
  ℕ, ◌+◌, ◌≤◌, ◌≡◌, refl, sym, ap, ◌∙◌, Bool, true, false, Option, none, some, List, [], ◌∷◌, arith,
  ltb, if◌then◌else◌, Bool-cases, inl, inr, length,
}
use mathlib.Core.Path.{subst}
use skyr_block_explorer.Prelude.Bytes.{Bytes, bytes_eq, bytes_eq_iff, bytes_eq_refl}
use skyr_block_explorer.Prelude.GoMap.{lookup, lookup-insert}
use skyr_block_explorer.Mempool.{AddrIndex, TxEntry, Mempool, on_new_entry}
use skyr_block_explorer.Mempool.Index.{IsConsistent, on_new_entry-IsConsistent}
use skyr_block_explorer.Mempool.Resync.{
  Sync, start, new_entry, Step, known, unknown, send, receive, receive_rest, take_txid, answer,
  Reach, here, next, is_listed, IsFinished, idle, working,
}
use skyr_block_explorer.Mempool.Resync.Counts.{
  bool_count, count, in_channel, at_work, at_work-append, at_work-replicate, in_channel-filled,
  at_work-busy, flying,
}

-- What the loop has taken from the list and not received yet.
abbrev pub sent : Sync → Bytes → ℕ
sent s q =
    in_channel q s.waiting
    + (in_channel q s.chan_txid + (at_work q s.workers + in_channel q s.chan_addr_index))

abbrev pub left_of : Sync → Bytes → ℕ
left_of s q = count q s.todo + sent s q

count-other : {b : Bool} → b ≡ false → bool_count b ≡ 0
count-other n = rw n refl

count-same : {b : Bool} → b ≡ true → bool_count b ≡ 1
count-same y = rw y refl

is_listed-count : (q : Bytes) (ts : List Bytes) → 1 ≤ count q ts → is_listed q ts ≡ true
is_listed-count q [] h = absurd (omega (arith, h))
is_listed-count q (t ∷ ts) h = elim (Bool-cases (bytes_eq t q)) [
  | inl y ↦ rw y refl
  | inr n ↦ rw n (is_listed-count q ts (omega (arith, h, count-other n)))
]

count-is_listed : (q : Bytes) (ts : List Bytes) → count q ts ≡ 0 → is_listed q ts ≡ false
count-is_listed q [] h = refl
count-is_listed q (t ∷ ts) h = elim (Bool-cases (bytes_eq t q)) [
  | inl y ↦ absurd (omega (arith, h, count-same y))
  | inr n ↦ rw n (count-is_listed q ts (omega (arith, h, count-other n)))
]

module _ (io : Bytes → List AddrIndex) (tx_time : ℕ) where
  -- What the mempool has of a transaction that the backend lists: what it had, or the new entry if it
  -- has addresses.
  abbrev pub expected : Mempool → Bytes → Option TxEntry
  expected m q = elim (lookup q m.tx_entries) [
    | some e ↦ some e
    | none ↦ if ltb 0 (length (io q)) then some (new_entry io tx_time q) else none
  ]

  lookup-on_new_entry :
      (txid q : Bytes) (e : TxEntry) (m : Mempool)
      → lookup q (on_new_entry txid e m).tx_entries ≡ (
          if bytes_eq txid q
          then (if ltb 0 (length e.addr_indexes) then some e else lookup q m.tx_entries)
          else lookup q m.tx_entries)
  unfolding on_new_entry
  lookup-on_new_entry txid q e m = ground (arith, lookup-insert txid q e m.tx_entries)

  expected-some :
      (m : Mempool) (q : Bytes) (e : TxEntry)
      → lookup q m.tx_entries ≡ some e
      → expected m q ≡ some e
  expected-some m q e h = rw (h, expected) refl

  expected-none :
      (m : Mempool) (q : Bytes)
      → lookup q m.tx_entries ≡ none
      → expected m q ≡ (if ltb 0 (length (io q)) then some (new_entry io tx_time q) else none)
  expected-none m q h = rw (h, expected) refl

  module _ (m0 : Mempool) (txs : List Bytes) where
    abbrev pub after_sync : Bytes → Option TxEntry
    after_sync q = if is_listed q txs then expected m0 q else lookup q m0.tx_entries

    -- Between the steps: each transaction is left at most once; those that were sent or
    -- wait to be were not there; and what is done is as expected.
    pub record Inv (s : Sync) : Type 0 where
      pub consistent : IsConsistent s.mempool
      pub once : (q : Bytes) → left_of s q ≤ 1
      pub fresh : (q : Bytes) → 1 ≤ sent s q → lookup q m0.tx_entries ≡ none
      pub listed : (q : Bytes) → 1 ≤ left_of s q → is_listed q txs ≡ true
      pub pending :
          (q : Bytes) → 1 ≤ left_of s q → lookup q s.mempool.tx_entries ≡ lookup q m0.tx_entries
      pub done : (q : Bytes) → left_of s q ≡ 0 → lookup q s.mempool.tx_entries ≡ after_sync q

    after_sync-listed : (q : Bytes) → is_listed q txs ≡ true → after_sync q ≡ expected m0 q
    after_sync-listed q h = rw h refl

    -- A transaction that goes from one place to the next.
    Inv-moved :
        (s t : Sync)
        → t.mempool ≡ s.mempool
        → t.todo ≡ s.todo
        → ((q : Bytes) → sent t q ≡ sent s q)
        → Inv s
        → Inv t
    Inv-moved s t em et es w = record {
      consistent = rw em (w.consistent);
      once = λ q. omega (arith, w.once q, es q, ap (count q) et);
      fresh = λ q k. w.fresh q (omega (arith, k, es q));
      listed = λ q k. w.listed q (omega (arith, k, es q, ap (count q) et));
      pending = λ q k. rw em (w.pending q (omega (arith, k, es q, ap (count q) et)));
      done = λ q k. rw em (w.done q (omega (arith, k, es q, ap (count q) et)));
    }

    -- A transaction that comes back.
    module _ (s t : Sync) (txid : Bytes)
        (em : t.mempool ≡ on_new_entry txid (new_entry io tx_time txid) s.mempool)
        (et : t.todo ≡ s.todo)
        (es : (q : Bytes) → sent s q ≡ bool_count (bytes_eq txid q) + sent t q) (w : Inv s) where
      this_sent : 1 ≤ sent s txid
      this_sent = omega (arith, es txid, count-same (bytes_eq_refl txid))

      was_fresh : lookup txid m0.tx_entries ≡ none
      was_fresh = w.fresh txid this_sent

      gone : lookup txid s.mempool.tx_entries ≡ none
      gone = w.pending txid (omega (arith, this_sent)) ∙ was_fresh

      same_entry :
          (q : Bytes)
          → bytes_eq txid q ≡ false
          → lookup q t.mempool.tx_entries ≡ lookup q s.mempool.tx_entries
      same_entry q n =
          ap (λ m. lookup q m.tx_entries) em
          ∙ lookup-on_new_entry txid q (new_entry io tx_time txid) s.mempool
          ∙ rw n refl

      arrived : lookup txid t.mempool.tx_entries ≡ after_sync txid
      arrived =
          ap (λ m. lookup txid m.tx_entries) em
          ∙ lookup-on_new_entry txid txid (new_entry io tx_time txid) s.mempool
          ∙ rw (bytes_eq_refl txid, gone) refl
          ∙ sym (expected-none m0 txid was_fresh)
          ∙ sym (after_sync-listed txid (w.listed txid (omega (arith, this_sent))))

      Inv-received : Inv t
      Inv-received = record {
        consistent = rw em (
            on_new_entry-IsConsistent txid (new_entry io tx_time txid) s.mempool w.consistent gone);
        once = λ q. omega (arith, w.once q, es q, ap (count q) et);
        fresh = λ q k. w.fresh q (omega (arith, k, es q));
        listed = λ q k. w.listed q (omega (arith, k, es q, ap (count q) et));
        pending = λ q k. elim (Bool-cases (bytes_eq txid q)) [
          | inl y ↦ absurd (omega (arith, k, w.once q, es q, ap (count q) et, count-same y))
          | inr n ↦ same_entry q n ∙ w.pending q (omega (arith, k, es q, ap (count q) et))
        ];
        done = λ q k. elim (Bool-cases (bytes_eq txid q)) [
          | inl y ↦
              subst (λ x. lookup x t.mempool.tx_entries ≡ after_sync x) ((bytes_eq_iff txid q).0 y)
                arrived
          | inr n ↦
              same_entry q n ∙ w.done q (omega (arith, k, es q, ap (count q) et, count-other n))
        ];
      }

    -- The first transaction of the list, which the mempool has.
    Inv-known :
        (s : Sync) (txid : Bytes) (todo : List Bytes) (e : TxEntry)
        → s.todo ≡ txid ∷ todo
        → lookup txid s.mempool.tx_entries ≡ some e
        → Inv s
        → Inv (record s { todo = todo })
    Inv-known s txid todo e d h w = record {
      consistent = w.consistent;
      once = λ q. omega (arith, w.once q, ap (count q) d);
      fresh = λ q. w.fresh q;
      listed = λ q k. w.listed q (omega (arith, k, ap (count q) d));
      pending = λ q k. w.pending q (omega (arith, k, ap (count q) d));
      done = λ q k. elim (Bool-cases (bytes_eq txid q)) [
        | inr n ↦ w.done q (omega (arith, k, ap (count q) d, count-other n))
        | inl y ↦
            let one : 1 ≤ left_of s q = omega (arith, ap (count q) d, count-same y) in
            let had : lookup q s.mempool.tx_entries ≡ some e =
              ap (λ t. lookup t s.mempool.tx_entries) (sym ((bytes_eq_iff txid q).0 y)) ∙ h in
            had
            ∙ sym (expected-some m0 q e (sym (w.pending q one) ∙ had))
            ∙ sym (after_sync-listed q (w.listed q one))
      ];
    }

    -- And which it has not.
    Inv-unknown :
        (s : Sync) (txid : Bytes) (todo : List Bytes)
        → s.waiting ≡ none
        → s.todo ≡ txid ∷ todo
        → lookup txid s.mempool.tx_entries ≡ none
        → Inv s
        → Inv (record s { todo = todo; waiting = some txid })
    Inv-unknown s txid todo n d h w = record {
      consistent = w.consistent;
      once = λ q. omega (arith, w.once q, ap (count q) d, ap (in_channel q) n);
      fresh = λ q k. elim (Bool-cases (bytes_eq txid q)) [
        | inr x ↦ w.fresh q (omega (arith, k, count-other x, ap (in_channel q) n))
        | inl y ↦
            sym (w.pending q (omega (arith, ap (count q) d, count-same y)))
            ∙ ap (λ t. lookup t s.mempool.tx_entries) (sym ((bytes_eq_iff txid q).0 y))
            ∙ h
      ];
      listed = λ q k. w.listed q (omega (arith, k, ap (count q) d, ap (in_channel q) n));
      pending = λ q k. w.pending q (omega (arith, k, ap (count q) d, ap (in_channel q) n));
      done = λ q k. w.done q (omega (arith, k, ap (count q) d, ap (in_channel q) n));
    }

    Step-Inv : {s t : Sync} → Step io tx_time s t → Inv s → Inv t
    Step-Inv (known {s} txid todo e n d h) w = Inv-known s txid todo e d h w
    Step-Inv (unknown {s} txid todo n d h) w = Inv-unknown s txid todo n d h w
    Step-Inv {s} {t} (send txid e n) w =
        Inv-moved s t refl refl (λ q. omega (arith, ap (in_channel q) e, ap (in_channel q) n)) w
    Step-Inv {s} {t} (receive offered txid e n) w =
        Inv-received s t txid refl refl (λ q. omega (arith, ap (in_channel q) n)) w
    Step-Inv {s} {t} (receive_rest txid d e lt n) w =
        Inv-received s t txid refl refl (λ q. omega (arith, ap (in_channel q) n)) w
    Step-Inv {s} {t} (take_txid xs ys txid v e) w =
        Inv-moved s t refl refl
          (λ q. omega (
            arith,
            ap (in_channel q) e,
            ap (at_work q) v,
            at_work-append q xs (idle ∷ ys),
            at_work-append q xs (working txid ∷ ys),
          ))
          w
    Step-Inv {s} {t} (answer xs ys txid v e) w =
        Inv-moved s t refl refl
          (λ q. omega (
            arith,
            ap (in_channel q) e,
            ap (at_work q) v,
            at_work-append q xs (idle ∷ ys),
            at_work-append q xs (working txid ∷ ys),
          ))
          w

    pub Reach-Inv : {s t : Sync} → Reach io tx_time s t → Inv s → Inv t
    Reach-Inv here w = w
    Reach-Inv (next r step) w = Step-Inv step (Reach-Inv r w)

    module _ (n : ℕ) where
      nothing_sent : (q : Bytes) → sent (start m0 txs n) q ≡ 0
      nothing_sent q = omega (arith, at_work-replicate q n)

      pub start-Inv : IsConsistent m0 → ((q : Bytes) → count q txs ≤ 1) → Inv (start m0 txs n)
      start-Inv c h = record {
        consistent = c;
        once = λ q. omega (arith, h q, nothing_sent q);
        fresh = λ q k. absurd (omega (arith, k, nothing_sent q));
        listed = λ q k. is_listed-count q txs (omega (arith, k, nothing_sent q));
        pending = λ q k. refl;
        done = λ q k. rw (count-is_listed q txs (omega (arith, k))) refl;
      }

    pub finished-done :
        {s : Sync} → IsFinished s → s.dispatched ≡ flying s → (q : Bytes) → left_of s q ≡ 0
    finished-done {s} f c q = omega (
      arith,
      ap (count q) f.no_todo,
      ap (in_channel q) f.no_waiting,
      in_channel-filled q s.chan_txid (omega (arith, c, f.no_dispatched)),
      at_work-busy q s.workers (omega (arith, c, f.no_dispatched)),
      in_channel-filled q s.chan_addr_index (omega (arith, c, f.no_dispatched)),
    )
