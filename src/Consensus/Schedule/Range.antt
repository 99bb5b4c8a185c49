-- ===== src/Consensus/Schedule/Range.antt =====
-- Every time falls to one of the proposers and one of its blocks.
use corechain.Consensus.Schedule.{Schedule, Turn, div_int64, place_in_term, ◌*₆◌, ◌+₆◌, ◌-₆◌}
use corechain.Prelude.{
  Bool-cases, ap, arith, if◌then◌else◌, inl, inr, leb, leb→le, refl, some, ℕ, ◌*◌, ◌+◌, ◌-◌, ◌/◌,
  ◌<◌, ◌∙◌, ◌≡◌, ◌≤◌,
}
use corechain.Prelude.Int.{
  int64_pos, negsuc, pos, pos_add, pos_mul, pos_quot, pos_sub, ℤ, ◌<ℤ◌, ◌≤ℤ◌,
}

pub add_lem : (a b : ℕ) → a + b < 9223372036854775808 → pos a +₆ pos b ≡ pos (a + b)
unfolding ◌+₆◌
add_lem a b h = rw (pos_add a b) (int64_pos (a + b) h)

pub sub_lem : (a b : ℕ) → b ≤ a → a < 9223372036854775808 → pos a -₆ pos b ≡ pos (a - b)
unfolding ◌-₆◌
sub_lem a b le h = rw (pos_sub a b le) (int64_pos (a - b) (omega arith))

pub mul_lem : (a b : ℕ) → a * b < 9223372036854775808 → pos a *₆ pos b ≡ pos (a * b)
unfolding ◌*₆◌
mul_lem a b h = rw (pos_mul a b) (int64_pos (a * b) h)

pub div-le : (a b : ℕ) → 0 < b → a / b ≤ a
div-le a b h = grind arith

pub div_lem :
    (a b : ℕ) → 0 < b → a < 9223372036854775808 → div_int64 (pos a) (pos b) ≡ some (pos (a / b))
unfolding div_int64
div_lem a b lt h =
    rw (pos_quot a b lt, int64_pos (a / b) (omega (arith, div-le a b lt))) (ground arith)

pub pred_lem : (a : ℕ) → a + 1 < 9223372036854775808 → pos (a + 1) -₆ pos 1 ≡ pos a
pred_lem a h = sub_lem (a + 1) 1 (omega arith) h ∙ ap pos (omega arith)

-- A turn of one of the proposers and one of its blocks, or -1 before its first block.
abbrev pub InRange : Turn → ℕ → ℕ → Type 0
InRange r n b =
    (pos 1 ≤ℤ r.term)
    × (pos 0 ≤ℤ r.position)
    × (r.position <ℤ pos n)
    × (negsuc 0 ≤ℤ r.block_pos)
    × (r.block_pos <ℤ pos b)

pub quot_bounds : (a b : ℕ) → 0 < b → (a / b * b ≤ a) × (a < a / b * b + b)
quot_bounds a b h = (grind arith, grind arith)

pub quot_below : (a b m : ℕ) → 0 < b → a < m * b → a / b < m
quot_below a b m lt h = grind (arith, quot_bounds a b lt)

abbrev pub config : (p b n alt ti it : ℕ) → Schedule
config p b n alt ti it = record {
  period = pos p;
  block_num = pos (b + 1);
  proposer_num = pos (n + 1);
  alternate_interval = pos alt;
  term_interval = pos ti;
  init_timestamp = pos it;
}

-- The length of a proposer's turn.
abbrev pub turn_of : ℕ → ℕ → ℕ → ℕ
turn_of alt p b = alt + p * b

-- The turn of the time `t` in the term that begins at `begin`, reckoned without bounds: before the
-- first place it is none of the blocks; then the turns follow one another, and in a turn the blocks
-- are a period apart, the first of them an interval after the turn began.
abbrev pub turn_in : (p b alt t term begin : ℕ) → Turn
turn_in p b alt t term begin =
    let m = (t - begin) / turn_of alt p b in
    let start = begin + m * turn_of alt p b + alt - p in
    if leb t begin
    then record { term = pos term; position = pos 0; block_pos = negsuc 0 }
    else record {
      term = pos term;
      position = pos m;
      block_pos = if leb t start then negsuc 0 else pos ((t - start) / p);
    }

module _ (p b n alt ti it : ℕ) (lp : 0 < p) (pa : p ≤ alt) where
  turn_lem :
      b + 1 < 9223372036854775808
      → turn_of alt p b < 9223372036854775808
      → pos alt +₆ pos p *₆ (pos (b + 1) -₆ pos 1) ≡ pos (turn_of alt p b)
  turn_lem hb ht =
      rw (pred_lem b hb, mul_lem p b (omega (arith, ht))) (add_lem alt (p * b) (omega (arith, ht)))

  -- Where the first block of the proposer `m` begins, less its period.
  abbrev start_of : (begin m : ℕ) → ℕ
  start_of begin m = begin + m * turn_of alt p b + alt - p

  start_lem :
      (t begin m : ℕ)
      → begin + m * turn_of alt p b ≤ t
      → t + turn_of alt p b + alt < 9223372036854775808
      → pos begin +₆ pos m *₆ pos (turn_of alt p b) +₆ pos alt -₆ pos p ≡ pos (start_of begin m)
  start_lem t begin m low fit =
      rw
        (
          mul_lem m (turn_of alt p b) (omega (arith, low, fit)),
          add_lem begin (m * turn_of alt p b) (omega (arith, low, fit)),
          add_lem (begin + m * turn_of alt p b) alt (omega (arith, low, fit)),
        )
        (sub_lem (begin + m * turn_of alt p b + alt) p (omega (arith, pa))
          (omega (arith, low, fit)))

  early :
      (t term begin : ℕ)
      → t ≤ begin
      → place_in_term (config p b n alt ti it) (pos t) (pos term) (pos begin)
        ≡ some (record { term = pos term; position = pos 0; block_pos = negsuc 0 })
  unfolding place_in_term
  early t term begin le = ground arith

  abbrev block_at : ℕ → ℕ → ℕ → ℤ
  block_at t begin m =
      if leb t (start_of begin m) then negsuc 0 else pos ((t - start_of begin m) / p)

  later :
      (t term begin : ℕ)
      → begin < t
      → b + 1 < 9223372036854775808
      → t + turn_of alt p b + alt < 9223372036854775808
      → let m = (t - begin) / turn_of alt p b in
        place_in_term (config p b n alt ti it) (pos t) (pos term) (pos begin)
        ≡ some (record { term = pos term; position = pos m; block_pos = block_at t begin m })
  unfolding place_in_term
  later t term begin lt hb fit =
      let m = (t - begin) / turn_of alt p b in
      let low : begin + m * turn_of alt p b ≤ t =
        omega (arith, (quot_bounds (t - begin) (turn_of alt p b) (omega (arith, lp, pa))).0, lt) in
      let e1 = turn_lem hb (omega (arith, fit)) in
      let e2 = sub_lem t begin (omega (arith, lt)) (omega (arith, fit)) in
      let e3 = div_lem (t - begin) (turn_of alt p b) (omega (arith, lp, pa)) (omega (arith, fit)) in
      let e4 = start_lem t begin m low fit in
      elim (Bool-cases (leb t (start_of begin m))) [
        | inl le ↦ ground (arith, e1, e2, e3, e4)
        | inr gt ↦
            let e5 = sub_lem t (start_of begin m) (ground arith) (omega (arith, fit)) in
            let e6 = div_lem (t - start_of begin m) p lp (omega (arith, fit)) in
            ground (arith, e1, e2, e3, e4, e5, e6)
      ]

  -- A place within the turns of the term.
  in_range :
      (t begin : ℕ)
      → begin < t
      → t < begin + (n + 1) * turn_of alt p b
      → let m = (t - begin) / turn_of alt p b in
        (m < n + 1) × (negsuc 0 ≤ℤ block_at t begin m) × (block_at t begin m <ℤ pos (b + 1))
  in_range t begin lt within =
      let m = (t - begin) / turn_of alt p b in
      let some_turn : 0 < turn_of alt p b = omega (arith, lp, pa) in
      let (low, high) = quot_bounds (t - begin) (turn_of alt p b) some_turn in
      let few =
        quot_below (t - begin) (turn_of alt p b) (n + 1) some_turn (omega (arith, within, lt)) in
      elim (Bool-cases (leb t (start_of begin m))) [
        | inl le ↦ (few, rw le (omega arith), rw le (omega arith))
        | inr gt ↦
            let less : t - start_of begin m < (b + 1) * p = grind arith in
            let blocks = quot_below (t - start_of begin m) p (b + 1) lp less in
            (few, rw gt (omega arith), rw gt (omega (arith, blocks)))
      ]

  pub place_lem :
      (t term begin : ℕ)
      → 0 < term
      → b + 1 < 9223372036854775808
      → t + turn_of alt p b + alt < 9223372036854775808
      → t < begin + (n + 1) * turn_of alt p b
      → (place_in_term (config p b n alt ti it) (pos t) (pos term) (pos begin)
          ≡ some (turn_in p b alt t term begin))
        × InRange (turn_in p b alt t term begin) (n + 1) (b + 1)
  place_lem t term begin lt hb fit within = elim (Bool-cases (leb t begin)) [
    | inl le ↦ (
      early t term begin (leb→le t begin le) ∙ rw le refl,
      rw le (omega (arith, lt), omega arith, omega arith, omega arith, omega arith),
    )
    | inr gt ↦
        let m = (t - begin) / turn_of alt p b in
        let past : begin < t = ground arith in
        let (few, low, high) = in_range t begin past within in
        (
          later t term begin past hb fit ∙ rw gt refl,
          rw gt (omega (arith, lt), omega arith, omega (arith, few), low, high),
        )
  ]
