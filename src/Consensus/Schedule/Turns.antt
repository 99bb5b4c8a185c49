-- ===== src/Consensus/Schedule/Turns.antt =====
-- The whole schedule: the turn of every time from the start on.
use corechain.Consensus.Schedule.{miner_scheduling, place_in_term, term_time, ◌*₆◌, ◌+₆◌, ◌-₆◌}
use corechain.Consensus.Schedule.Range.{
  InRange, add_lem, config, div_lem, mul_lem, place_lem, pred_lem, quot_bounds, sub_lem, turn_in,
  turn_of,
}
use corechain.Prelude.{arith, false, some, ℕ, ◌*◌, ◌+◌, ◌-◌, ◌/◌, ◌<◌, ◌∙◌, ◌≡◌, ◌≤◌}
use corechain.Prelude.Int.{ltb_ℤ, pos}

pub le_mul : (x k : ℕ) → 0 < k → x ≤ x * k
le_mul x k h = grind arith

div_mono : (a b k : ℕ) → 0 < k → a ≤ b → a / k ≤ b / k
div_mono a b k h le = grind (arith, quot_bounds a k h, quot_bounds b k h)

module _ (p b n alt ti it : ℕ) (lp : 0 < p) (pa : p ≤ alt) (at : alt ≤ ti) where
  -- The length of a term.
  abbrev length_of : ℕ
  length_of = ti + b * (n + 1) * p + n * alt

  parts :
      (b ≤ b * (n + 1))
      × (b * (n + 1) ≤ b * (n + 1) * p)
      × (n ≤ n * alt)
      × ((n + 1) * turn_of alt p b + ti ≡ length_of + alt)
  parts = (
    le_mul b (n + 1) (omega arith),
    le_mul (b * (n + 1)) p lp,
    le_mul n alt (omega (arith, lp, pa)),
    grind arith,
  )

  term_time_lem :
      length_of < 9223372036854775807 → term_time (config p b n alt ti it) ≡ pos length_of
  unfolding term_time
  term_time_lem h =
      let (b1, b2, n1, whole) = parts in
      rw (pred_lem b (omega (arith, b1, b2, h)), pred_lem n (omega (arith, n1, h)))
        (rw
          (
            mul_lem b (n + 1) (omega (arith, b2, h)),
            mul_lem (b * (n + 1)) p (omega (arith, h)),
            mul_lem n alt (omega (arith, h)),
          )
          (rw (add_lem ti (b * (n + 1) * p) (omega (arith, h)))
            (add_lem (ti + b * (n + 1) * p) (n * alt) (omega (arith, h)))))

  -- The first place of the term `q`.
  abbrev begin_of : ℕ → ℕ → ℕ
  begin_of init q = init + q * length_of + ti - alt

  begin_lem :
      (init q : ℕ)
      → init + q * length_of + length_of < 9223372036854775807
      → pos init +₆ (pos q +₆ pos 1 -₆ pos 1) *₆ pos length_of +₆ pos ti -₆ pos alt
        ≡ pos (begin_of init q)
  begin_lem init q h =
      let step = le_mul q length_of (omega (arith, lp, pa, at)) in
      rw (add_lem q 1 (omega (arith, step, h)), pred_lem q (omega (arith, step, h)))
        (rw
          (
            mul_lem q length_of (omega (arith, h)),
            add_lem init (q * length_of) (omega (arith, h)),
            add_lem (init + q * length_of) ti (omega (arith, h)),
          )
          (sub_lem (init + q * length_of + ti) alt (omega (arith, at)) (omega (arith, h))))

  -- The place within its term of the time `t`.
  turn_at :
      (t init : ℕ)
      → init ≤ t
      → t + length_of + length_of < 9223372036854775807
      → let q = (t - init) / length_of in
        (place_in_term (config p b n alt ti it) (pos t) (pos (q + 1)) (pos (begin_of init q))
          ≡ some (turn_in p b alt t (q + 1) (begin_of init q)))
        × InRange (turn_in p b alt t (q + 1) (begin_of init q)) (n + 1) (b + 1)
  turn_at t init from h =
      let q = (t - init) / length_of in
      let (low, high) = quot_bounds (t - init) length_of (omega (arith, lp, pa, at)) in
      let (b1, b2, n1, whole) = parts in
      let one = le_mul (turn_of alt p b) (n + 1) (omega arith) in
      place_lem p b n alt ti it lp pa t (q + 1) (begin_of init q) (omega arith)
        (omega (arith, b1, b2, h)) (omega (arith, whole, one, at, h))
        (omega (arith, whole, high, from))

  scheduled :
      (timestamp : ℕ)
      → it ≤ timestamp
      → timestamp / 1000000 + length_of + length_of < 9223372036854775807
      → timestamp < 9223372036854775808
      → let t = timestamp / 1000000 in
        let init = it / 1000000 in
        let q = (t - init) / length_of in
        miner_scheduling (config p b n alt ti it) (pos timestamp)
        ≡ place_in_term (config p b n alt ti it) (pos t) (pos (q + 1)) (pos (begin_of init q))
  unfolding miner_scheduling
  scheduled timestamp from h hh =
      let t = timestamp / 1000000 in
      let init = it / 1000000 in
      let q = (t - init) / length_of in
      let le = div_mono it timestamp 1000000 (omega arith) from in
      let (low, high) = quot_bounds (t - init) length_of (omega (arith, lp, pa, at)) in
      let step = le_mul q length_of (omega (arith, lp, pa, at)) in
      let started : ltb_ℤ (pos timestamp) (pos it) ≡ false = ground arith in
      let e1 = div_lem timestamp 1000000 (omega arith) hh in
      let e2 = div_lem it 1000000 (omega arith) (omega (arith, from, hh)) in
      let e3 = sub_lem t init le (omega (arith, h)) in
      let e4 = term_time_lem (omega (arith, h)) in
      let e5 = div_lem (t - init) length_of (omega (arith, lp, pa, at)) (omega (arith, h)) in
      let e6 = add_lem q 1 (omega (arith, step, low, h)) in
      let e7 = begin_lem init q (omega (arith, low, le, h)) in
      ground (arith, started, e1, e2, e3, e4, e5, e6, e7)

  -- With b + 1 blocks and n + 1 proposers, a period that is positive and at most the interval between
  -- proposers, which is at most the interval between terms, and from the start on, while the time in
  -- milliseconds and two terms fit an int64: the code finds the turn that the
  -- same reckoning gives over the natural numbers, where nothing wraps around; its term is positive, the position is that of one of the proposers, and the block is one of its
  -- blocks, or -1 before the first.
  pub every_time_has_a_turn :
      (timestamp : ℕ)
      → it ≤ timestamp
      → timestamp / 1000000 + length_of + length_of < 9223372036854775807
      → timestamp < 9223372036854775808
      → let t = timestamp / 1000000 in
        let init = it / 1000000 in
        let q = (t - init) / length_of in
        (miner_scheduling (config p b n alt ti it) (pos timestamp)
          ≡ some (turn_in p b alt t (q + 1) (begin_of init q)))
        × InRange (turn_in p b alt t (q + 1) (begin_of init q)) (n + 1) (b + 1)
  every_time_has_a_turn timestamp from h hh =
      let (e, good) =
        turn_at (timestamp / 1000000) (it / 1000000)
          (div_mono it timestamp 1000000 (omega arith) from) h in
      (scheduled timestamp from h hh ∙ e, good)
