-- ===== src/Db/Sync/Parallel/Asking.antt =====
-- db/sync.go: when ConnectLoop of ConnectBlocksParallel has a hash that it offers to the workers.
use skyr_block_explorer.Prelude.{
  ◌≤◌, ◌≡◌, refl, ◌∙◌, false, Option, none, some, ◌∷◌, ◌++◌, ◌==◌, Bool-cases, inl, inr,
}
use mathlib.Core.Path.{subst}
use skyr_block_explorer.Prelude.Bytes.{Bytes}
use skyr_block_explorer.Prelude.Result.{Result, ok, err, panic}
use skyr_block_explorer.Chain.{Block}
use skyr_block_explorer.Db.Sync.{Backend}
use skyr_block_explorer.Db.Sync.Parallel.{
  waiting, BulkIndex, Run, State, start, expected, connected, write, stop_writer, Step, ask, put,
  interrupt, close_hashes, take_hash, leave, fetch, give_up, break_off, receive, stop, Reach, begin,
  next,
}

module _ {D : Type 0} (bulk : BulkIndex D) (chain : Backend) (o : Run) (d0 : D) where
  -- A hash that is offered is that of the height, and the loop has not ended.
  pub record Offers (s : State D) (hash : Bytes) : Type 0 where
    pub open_still : s.closed ≡ false
    pub no_signal : s.terminating ≡ false
    pub inside : s.height ≤ o.higher
    pub answer : chain.get_block_hash s.height ≡ ok hash

  abbrev AskedAt : State D → Option Bytes → Type 0
  AskedAt s none = Unit
  AskedAt s (some hash) = Offers s hash

  abbrev pub Asking : State D → Type 0
  Asking s = AskedAt s s.asked

  AskedAt-none : (s : State D) (a : Option Bytes) → a ≡ none → AskedAt s a
  AskedAt-none s none e = tt
  AskedAt-none s (some hash) e = cc

  AskedAt-same :
      (s t : State D) (a : Option Bytes)
      → t.closed ≡ s.closed
      → t.terminating ≡ s.terminating
      → t.height ≡ s.height
      → AskedAt s a
      → AskedAt t a
  AskedAt-same s t none ec et eh p = tt
  AskedAt-same s t (some hash) ec et eh p = record {
    open_still = ec ∙ p.open_still;
    no_signal = et ∙ p.no_signal;
    inside = rw eh (p.inside);
    answer = rw eh (p.answer);
  }

  connected-Asking :
      (s : State D) (b : Block) (r : Result D) → Asking s → Asking (connected bulk s b r)
  connected-Asking s b (ok d) p =
      AskedAt-same s (connected bulk s b (ok d)) s.asked refl refl refl p
  connected-Asking s b (err e) p =
      AskedAt-same s (connected bulk s b (err e)) s.asked refl refl refl p
  connected-Asking s b panic p = AskedAt-same s (connected bulk s b panic) s.asked refl refl refl p

  write-Asking : (s : State D) (b : Block) → Asking s → Asking (write bulk o s b)
  unfolding write
  write-Asking s b p = elim (Bool-cases (b.height == expected s)) [
    | inl y ↦ rw y (connected-Asking s b _ p)
    | inr n ↦ rw n (AskedAt-same s _ s.asked refl refl refl p)
  ]

  Asking-Step : (s t : State D) → Asking s → Step bulk o chain s t → Asking t
  unfolding stop_writer
  Asking-Step s t p (ask hash c te a le q) = record {
    open_still = c;
    no_signal = te;
    inside = le;
    answer = q;
  }
  Asking-Step s t p (put hash a len) = tt
  Asking-Step s t p (interrupt c te a le) = AskedAt-none _ s.asked a
  Asking-Step s t p (close_hashes c a q) = AskedAt-none _ s.asked a
  Asking-Step s t p (take_hash xs ys hh hhs w q) = AskedAt-same s t s.asked refl refl refl p
  Asking-Step s t p (leave xs ys w q c) = AskedAt-same s t s.asked refl refl refl p
  Asking-Step s t p (fetch xs ys hh b w q) = AskedAt-same s t s.asked refl refl refl p
  Asking-Step s t p (give_up xs ys hh w c) = AskedAt-same s t s.asked refl refl refl p
  Asking-Step s t p (break_off xs ys hh b w te) = AskedAt-same s t s.asked refl refl refl p
  Asking-Step s t p (receive xs ys hh b w wr q) =
      write-Asking (record s { workers = xs ++ (waiting ∷ ys) }) b
        (AskedAt-same s (record s { workers = xs ++ (waiting ∷ ys) }) s.asked refl refl refl p)
  Asking-Step s t p (stop wr q) = AskedAt-same s t s.asked refl refl refl p

  pub Reach-Asking : {s : State D} → Reach bulk o chain d0 s → Asking s
  unfolding start
  Reach-Asking begin = tt
  Reach-Asking (next {s} {t} r st) = Asking-Step s t (Reach-Asking r) st

  AskedAt-Offers :
      (s : State D) (hash : Bytes) (a : Option Bytes) → a ≡ some hash → AskedAt s a → Offers s hash
  AskedAt-Offers s hash a e p = subst (AskedAt s) e p

  pub asked-Offers : (s : State D) (hash : Bytes) → Asking s → s.asked ≡ some hash → Offers s hash
  asked-Offers s hash p e = AskedAt-Offers s hash s.asked e p
