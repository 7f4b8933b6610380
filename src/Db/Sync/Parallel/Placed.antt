-- ===== src/Db/Sync/Parallel/Placed.antt =====
-- db/sync.go: where the heights between the writer and ConnectLoop are.
use skyr_block_explorer.Prelude.{
  ℕ, suc, ◌+◌, ◌%◌, ◌≤◌, ◌<◌, ◌≡◌, ap, ◌∙◌, List, ◌∷◌, ◌++◌, length, arith, ◌==◌,
}
use skyr_block_explorer.Chain.{Block}
use skyr_block_explorer.Db.Sync.Parallel.{HashHeight, Worker, waiting, fetching, sending}
use skyr_block_explorer.Db.Sync.Parallel.Counts.{
  one_if, holds, busy, total, total-append, total-busy, length-append_cons, between,
}

-- Of `n` workers, each height from `e` up to `t`, and no other, is with exactly one.
pub record Placed (n e t : ℕ) (ws : List Worker) : Type 0 where
  pub load : e + total busy ws ≡ t
  pub counts : (h : ℕ) → total (holds h) ws ≡ between e t h
  pub size : length ws ≡ n

between-suc : (e t h : ℕ) → e ≤ t → between e (suc t) h ≡ one_if (t == h) + between e t h
between-suc e t h le = ground (arith, le)

between-next : (e t h : ℕ) → e < t → between e t h ≡ one_if (e == h) + between (e + 1) t h
between-next e t h lt = ground (arith, lt)

between-bounds : (e t h k : ℕ) → suc k ≡ between e t h → (e ≤ h) × (h < t)
between-bounds e t h k q = ground (arith, q)

congruent : (n e h : ℕ) → e ≤ h → h < e + n → h % n ≡ e % n → h ≡ e
congruent n e h le lt q = grind (arith, le, lt, q)

module _ (n e t : ℕ) (xs ys : List Worker) where
  -- A worker that goes on with its height.
  pub Placed-same :
      (v w : Worker)
      → Placed n e t (xs ++ (v ∷ ys))
      → busy w ≡ busy v
      → ((h : ℕ) → holds h w ≡ holds h v)
      → Placed n e t (xs ++ (w ∷ ys))
  Placed-same v w p eb eh = record {
    load = omega (arith, p.load, eb, total-append busy xs ys v, total-append busy xs ys w);
    counts = λ h.
        omega
          (arith, p.counts h, eh h, total-append (holds h) xs ys v, total-append (holds h) xs ys w);
    size = length-append_cons xs ys w v ∙ p.size;
  }

  pub Placed-take :
      (hh : HashHeight)
      → Placed n e t (xs ++ (waiting ∷ ys))
      → hh.height ≡ t
      → Placed n e (suc t) (xs ++ (fetching hh ∷ ys))
  Placed-take hh p q = record {
    load =
        omega
          (arith, p.load, total-append busy xs ys waiting, total-append busy xs ys (fetching hh));
    counts = λ h.
        let a = total-append (holds h) xs ys waiting in
        let b = total-append (holds h) xs ys (fetching hh) in
        let c : one_if (hh.height == h) ≡ one_if (t == h) = ap (λ k. one_if (k == h)) q in
        let le : e ≤ t = omega (arith, p.load) in
        omega (arith, p.counts h, a, b, c, between-suc e t h le);
    size = length-append_cons xs ys (fetching hh) waiting ∙ p.size;
  }

  module _ (hh : HashHeight) (b : Block) (p : Placed n e t (xs ++ (sending hh b ∷ ys))) where
    offered_bounds : (e ≤ hh.height) × (hh.height < t)
    offered_bounds =
        let a = total-append (holds hh.height) xs ys (sending hh b) in
        let one : one_if (hh.height == hh.height) ≡ 1 = ground arith in
        between-bounds e t hh.height (total (holds hh.height) xs + total (holds hh.height) ys)
          (omega (arith, a, one, p.counts hh.height))

    -- On the channel of `e` no other height can come.
    pub offered_height : hh.height % n ≡ e % n → hh.height ≡ e
    offered_height q =
        let lt : hh.height < e + n =
          omega (arith, offered_bounds.1, p.load, p.size, total-busy (xs ++ (sending hh b ∷ ys))) in
        congruent n e hh.height offered_bounds.0 lt q

    pub Placed-receive : hh.height ≡ e → Placed n (e + 1) t (xs ++ (waiting ∷ ys))
    Placed-receive q = record {
      load =
          omega (
            arith,
            p.load,
            total-append busy xs ys waiting,
            total-append busy xs ys (sending hh b),
          );
      counts = λ h.
          let a = total-append (holds h) xs ys waiting in
          let c = total-append (holds h) xs ys (sending hh b) in
          let d : one_if (hh.height == h) ≡ one_if (e == h) = ap (λ k. one_if (k == h)) q in
          let lt : e < t = omega (arith, offered_bounds.1, q) in
          omega (arith, p.counts h, a, c, d, between-next e t h lt);
      size = length-append_cons xs ys waiting (sending hh b) ∙ p.size;
    }
