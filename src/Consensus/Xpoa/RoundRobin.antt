-- ===== src/Consensus/Xpoa/RoundRobin.antt =====
-- The turns of XPOA go round the validators.
use corechain.Consensus.Schedule.{Turn, ◌*₆◌}
use corechain.Consensus.Schedule.Turns.{le_mul}
use corechain.Consensus.Xpoa.{
  LedgerRely, Slice, Storage, XpoaSchedule, get_local_leader, get_local_validates, off_schedule,
  xpoa_scheduling,
}
use corechain.Prelude.Int.{pos, ℤ}
use corechain.Prelude.{
  Bool, List, ap, arith, false, get_elem-length, get_elem?, length, refl, some, sym, ℕ, ◌%◌, ◌*◌,
  ◌+◌, ◌-◌, ◌/◌, ◌<◌, ◌∙◌, ◌≡◌, ◌≤◌,
}
use corechain.Consensus.Schedule.Range.{
  add_lem, div-le, div_lem, mul_lem, pred_lem, quot_below, quot_bounds, sub_lem,
}

quot_unique : (a b q : ℕ) → 0 < b → q * b ≤ a → a < q * b + b → a / b ≡ q
quot_unique a b q h low high = grind (arith, quot_bounds a b h)

mod_unique : (b q r : ℕ) → r < b → (q * b + r) % b ≡ r
mod_unique b q r h =
    grind (arith, quot_unique (q * b + r) b q (omega (arith, h)) (omega arith) (omega (arith, h)))

comm : (a b : ℕ) → a * b ≡ b * a
comm a b = grind arith

rem_below : (a b : ℕ) → 0 < b → a % b < b
rem_below a b h = grind (arith, quot_bounds a b h)

mul_split : (q n m k : ℕ) → (q * n + m) * k ≡ q * (k * n) + m * k
mul_split q n m k = grind arith

module _ (x k n : ℕ) (hk : 0 < k) (hn : 0 < k * n) where
  -- What is left of `x` after whole rounds of `n` turns of length `k`.
  abbrev pub left : ℕ
  left = x - x / (k * n) * (k * n)

  split :
      (left / k < n)
      × ((x / (k * n) * n + left / k) * k ≤ x)
      × (x < (x / (k * n) * n + left / k) * k + k)
      × (left - left / k * k ≡ x - (x / (k * n) * n + left / k) * k)
  split =
      let (low, high) = quot_bounds x (k * n) hn in
      let (low2, high2) = quot_bounds left k hk in
      let whole = mul_split (x / (k * n)) n (left / k) k in
      (
        quot_below left k n hk (omega (arith, high, comm n k)),
        omega (arith, whole),
        omega (arith, whole),
        omega (arith, whole),
      )

  pub left-turn : left / k ≡ x / k % n
  left-turn =
      let (below, low, high, same) = split in
      let e = quot_unique x k (x / (k * n) * n + left / k) hk low high in
      sym (rw e (mod_unique n (x / (k * n)) (left / k) below))

  pub left-rest : left - left / k * k ≡ x % k
  left-rest =
      let (below, low, high, same) = split in
      let e = quot_unique x k (x / (k * n) * n + left / k) hk low high in grind (arith, same, e)

module _ (p b : ℕ) (init : Slice) (start : ℤ) (bft : Bool) where
  -- A schedule with a period of `p` milliseconds and `b` blocks in a turn.
  abbrev pub poa : XpoaSchedule
  poa = record {
    period = pos p;
    block_num = pos b;
    init_validators = init;
    start_height = start;
    enable_bft = bft;
  }

  -- The turn of the time `t` in milliseconds among `n` validators.
  abbrev pub round_turn : ℕ → ℕ → Turn
  round_turn n t = record {
    term = pos (t / (p * b * n) + 1);
    position = pos (t / (p * b) % n);
    block_pos = pos (t % (p * b) / p + 1);
  }

  module _ (lp : 0 < p) (lb : 0 < b) where
    pub scheduling_lem :
        (timestamp n : ℕ)
        → 0 < n
        → p * b * n < 9223372036854775808
        → timestamp < 9223372036854775808
        → xpoa_scheduling poa (pos timestamp) (pos n) ≡ some (round_turn n (timestamp / 1000000))
    unfolding xpoa_scheduling
    scheduling_lem timestamp n ln hh ht =
        let t = timestamp / 1000000 in
        let k = p * b in
        let q = t / (k * n) in
        let r = t - q * (k * n) in
        let m = r / k in
        let swap : p * n * b ≡ k * n = grind arith in
        let pk = le_mul p b lb in
        let kk = le_mul k n ln in
        let pn = le_mul (p * n) b lb in
        let small : t * 1000000 ≤ timestamp = (quot_bounds timestamp 1000000 (omega arith)).0 in
        let (low, high) = quot_bounds t (k * n) (omega (arith, lp, pk, kk)) in
        let (low2, high2) = quot_bounds r k (omega (arith, lp, pk)) in
        let less = div-le t (k * n) (omega (arith, lp, pk, kk)) in
        let less2 = div-le r k (omega (arith, lp, pk)) in
        let less3 = div-le (r - m * k) p lp in
        let e1 : pos p *₆ pos n *₆ pos b ≡ pos (k * n) =
          rw (mul_lem p n (omega (arith, pn, swap, hh)))
            (mul_lem (p * n) b (omega (arith, swap, hh)) ∙ ap pos swap) in
        let e2 : pos p *₆ pos b ≡ pos k = mul_lem p b (omega (arith, kk, hh)) in
        let e3 = div_lem timestamp 1000000 (omega arith) (omega (arith, ht)) in
        let e4 = div_lem t (k * n) (omega (arith, lp, pk, kk)) (omega (arith, small, ht)) in
        let e5 = add_lem q 1 (omega (arith, small, less, ht)) in
        let e6 = pred_lem q (omega (arith, small, less, ht)) in
        let e7 = mul_lem q (k * n) (omega (arith, low, small, ht)) in
        let e8 = sub_lem t (q * (k * n)) low (omega (arith, small, ht)) in
        let e9 = div_lem r k (omega (arith, lp, pk)) (omega (arith, small, ht)) in
        let e10 = mul_lem m k (omega (arith, low2, small, ht)) in
        let e11 = sub_lem r (m * k) low2 (omega (arith, small, ht)) in
        let e12 = div_lem (r - m * k) p lp (omega (arith, small, ht)) in
        let e13 = add_lem ((r - m * k) / p) 1 (omega (arith, less3, small, ht)) in
        let e14 = left-turn t k n (omega (arith, lp, pk)) (omega (arith, lp, pk, kk)) in
        let e15 = left-rest t k n (omega (arith, lp, pk)) (omega (arith, lp, pk, kk)) in
        rw (e1, e2, e3)
          (rw e4 (
            rw e5 (rw e6 (rw (e7, e8) (rw e9 (rw (e10, e11) (rw e12 (rw (e13, e15, e14) refl))))))))

    pub on_time :
        (t : ℕ) (v : List ℕ) → 0 < length v → off_schedule poa (round_turn (length v) t) v ≡ false
    on_time t v h =
        let below : t % (p * b) < b * p =
          rw (comm b p) (rem_below t (p * b) (omega (arith, lp, le_mul p b lb))) in
        let last = quot_below (t % (p * b)) p b lp below in
        let inside = rem_below (t / (p * b)) (length v) h in ground (arith, last, inside)

    -- With a positive period and number of blocks, for a block whose local validators are a list that is
    -- not empty, at a time that fits an int64, while a whole round fits too: the local leader is the
    -- validator whose turn it is when the validators take turns of period times blocks milliseconds in
    -- their order, round after round from the time 0; there is no panic and no empty answer.
    pub leaders_take_turns :
        (l : LedgerRely) (timestamp : ℕ) (round : ℤ) (storage : Storage) (v : List ℕ)
        → get_local_validates poa l round storage ≡ some (some v)
        → 0 < length v
        → p * b * length v < 9223372036854775808
        → timestamp < 9223372036854775808
        → (leader : ℕ) × (get_elem? v (timestamp / 1000000 / (p * b) % length v) ≡ some leader)
          × (get_local_leader poa l (pos timestamp) round storage ≡ some (some leader))
    unfolding get_local_leader
    leaders_take_turns l timestamp round storage v e ln hh ht =
        let n = length v in
        let t = timestamp / 1000000 in
        let (leader, at) = get_elem-length v (t / (p * b) % n) (rem_below (t / (p * b)) n ln) in
        (
          leader,
          at,
          rw (e) (rw (scheduling_lem timestamp n ln hh ht) (rw (on_time t v ln) (rw at refl))),
        )
