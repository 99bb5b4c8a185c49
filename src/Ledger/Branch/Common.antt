-- ===== src/Ledger/Branch/Common.antt =====
-- `GetCommonParentBlockid` finds the lowest common ancestor, within the rounds that it is given.
use corechain.Ledger.Store.{Block, Disk, has_all, link_of, ok}
use corechain.Ledger.Fork.Walk.{both_parents}
use corechain.Ledger.Tree.{
  IsSplit, IsSplit-self, IsSplit-sym, IsSplit-up_both, IsSplit-up_left, IsTree, Link, Links,
}
use corechain.Ledger.Branch.{bind_outcome, descend, get_common_parent, meet, query_block}
use corechain.Prelude.{
  ==_iff, Bool-cases, Option, Option-cases, ap, arith, false, inl, inr, ltb, ltb→lt, none, some,
  subst, suc, sym, true, zero, ℕ, ◌<◌, ◌==◌, ◌∙◌, ◌≡◌, ◌≢◌, ◌≤◌,
}
use corechain.Prelude.Dict.{lookup}

-- The links of the stored blocks.
abbrev pub disk_links : Disk → Links
disk_links d i = elim (lookup i d.blocks) [ some b ↦ some (link_of b) | none ↦ none ]

-- Each stored block is stored under its identifier, with its transactions, and the links are a
-- tree.
pub record IsStored (d : Disk) : Type 0 where
  pub filed : (i : ℕ) (b : Block) → lookup i d.blocks ≡ some b → b.id ≡ i
  pub bodies :
      (i : ℕ) (b : Block) → lookup i d.blocks ≡ some b → has_all b.tx_ids d.confirmed ≡ true
  pub tree : IsTree (disk_links d)

module _ (d : Disk) (w : IsStored d) where
  pub query_lem : (i : ℕ) (b : Block) → lookup i d.blocks ≡ some b → query_block d (some i) ≡ ok b
  unfolding query_block
  query_lem i b h = ground (arith, w.bodies i b h)

  pub link_lem :
      (i : ℕ) (b : Block) → lookup i d.blocks ≡ some b → disk_links d i ≡ some (link_of b)
  link_lem i b h = rw (h, disk_links)

  -- The parent of a stored block that is not at height 0.
  pub parent_lem :
      (b : Block)
      → lookup b.id d.blocks ≡ some b
      → 0 < b.height
      → (p : ℕ) × (c : Block) × (b.pre ≡ some p)
        × (query_block d b.pre ≡ ok c)
        × (lookup c.id d.blocks ≡ some c)
        × (c.id ≡ p)
        × (b.height ≡ suc c.height)
  parent_lem b h lt = elim (Option-cases b.pre) [
    | inl e ↦ absurd (omega (arith, w.tree.root b.id (link_of b) (link_lem b.id b h) e))
    | inr (p, e) ↦
        let (k, hk, step) = w.tree.parent b.id (link_of b) p (link_lem b.id b h) e in
        elim (Option-cases (lookup p d.blocks)) [
          | inl none_there ↦ absurd (ground arith)
          | inr (c, hc) ↦
              let same : k ≡ link_of c = ground arith in
              (
                p,
                c,
                e,
                ap (query_block d) e ∙ query_lem p c hc,
                subst (λ z. lookup z d.blocks ≡ some c) (sym (w.filed p c hc)) hc,
                w.filed p c hc,
                rw (← ap (λ (z : Link). z.height) same) step,
              )
        ]
  ]

  descend_step :
      (fuel h : ℕ) (b c : Block)
      → ltb h b.height ≡ true
      → query_block d b.pre ≡ ok c
      → descend (suc fuel) d b h ≡ descend fuel d c h
  unfolding descend
  descend_step fuel h b c go run = rw (go, descend) (rw (run, bind_outcome))

  descend_stop : (fuel h : ℕ) (b : Block) → ltb h b.height ≡ false → descend (suc fuel) d b h ≡ ok b
  unfolding descend
  descend_stop fuel h b stop = rw (stop, descend)

  meet_step :
      (fuel : ℕ) (a b a' b' : Block)
      → (a.id == b.id) ≡ false
      → query_block d a.pre ≡ ok a'
      → query_block d b.pre ≡ ok b'
      → meet (suc fuel) d a b ≡ meet fuel d a' b'
  unfolding meet
  meet_step fuel a b a' b' ne run run' = rw (ne, meet) (rw (run, run', bind_outcome))

  meet_stop : (fuel : ℕ) (a b : Block) → (a.id == b.id) ≡ true → meet (suc fuel) d a b ≡ ok a.id
  unfolding meet
  meet_stop fuel a b eq = rw (eq, meet)

  -- The first loops stop at an ancestor of the given height or lower, and keep the split with any
  -- block of that height or lower.
  descend_lem :
      (fuel h : ℕ) (b : Block)
      → lookup b.id d.blocks ≡ some b
      → b.height < fuel
      → (c : Block) × (descend fuel d b h ≡ ok c)
        × (lookup c.id d.blocks ≡ some c)
        × (c.height ≤ h)
        × (h ≤ b.height → c.height ≡ h)
        × ((o : Block) (e : ℕ)
            → lookup o.id d.blocks ≡ some o
            → o.height ≤ h
            → IsSplit (disk_links d) c.id o.id e
            → IsSplit (disk_links d) b.id o.id e)
  descend_lem zero h b hb lt = absurd (omega arith)
  descend_lem (suc fuel) h b hb lt = elim (Bool-cases (ltb h b.height)) [
    | inr stop ↦
        (b, descend_stop fuel h b stop, hb, ground arith, λ le. ground arith, λ o e ho le s. s)
    | inl go ↦
        let above : h < b.height = ltb→lt h b.height go in
        let (p, c, ep, run_p, hc, ic, step) = parent_lem b hb (omega arith) in
        let (r, run, hr, low, at, split) = descend_lem fuel h c hc (omega arith) in
        (
          r,
          descend_step fuel h b c go run_p ∙ run,
          hr,
          low,
          λ le. at (omega arith),
          λ o e ho le s.
              IsSplit-up_left (disk_links d) w.tree b.id o.id e p (link_of b) (link_of o)
                (link_lem b.id b hb) (link_lem o.id o ho) ep (omega arith)
                (subst (λ z. IsSplit (disk_links d) z o.id e) ic (split o e ho le s)),
        )
  ]

  -- Distinct blocks at one height do not lie at height 0.
  pub high_lem :
      (a b : Block)
      → lookup a.id d.blocks ≡ some a
      → lookup b.id d.blocks ≡ some b
      → a.height ≡ b.height
      → a.id ≢ b.id
      → 0 < a.height
  high_lem a b ha hb same ne =
      let (x, _, ex, _) =
        both_parents (disk_links d) w.tree a.id b.id (link_of a) (link_of b) (link_lem a.id a ha)
          (link_lem b.id b hb) same ne in
      let (k, _, up_a) = w.tree.parent a.id (link_of a) x (link_lem a.id a ha) ex in omega arith

  -- The last loop ends at the split of two blocks of one height.
  meet_lem :
      (fuel : ℕ) (a b : Block)
      → lookup a.id d.blocks ≡ some a
      → lookup b.id d.blocks ≡ some b
      → a.height ≡ b.height
      → a.height < fuel
      → (c : ℕ) × (meet fuel d a b ≡ ok c) × IsSplit (disk_links d) a.id b.id c
  meet_lem zero a b ha hb same lt = absurd (omega arith)
  meet_lem (suc fuel) a b ha hb same lt = elim (Bool-cases (a.id == b.id)) [
    | inl eq ↦ (
      a.id,
      meet_stop fuel a b eq,
      subst (λ z. IsSplit (disk_links d) a.id z a.id) ((==_iff a.id b.id).0 eq)
          (IsSplit-self (disk_links d) a.id),
    )
    | inr no_eq ↦
        let ne : a.id ≢ b.id = λ e. cc (no_eq, (==_iff a.id b.id).1 e) in
        let high = high_lem a b ha hb same ne in
        let (p, a', ep, run_p, ha', ia, step) = parent_lem a ha high in
        let (q, b', eq, run_q, hb', ib, step') = parent_lem b hb (omega arith) in
        let (c, run, split) = meet_lem fuel a' b' ha' hb' (omega arith) (omega arith) in
        (
          c,
          meet_step fuel a b a' b' no_eq run_p run_q ∙ run,
          IsSplit-up_both (disk_links d) w.tree a.id b.id c p q (link_of a) (link_of b)
              (link_lem a.id a ha) (link_lem b.id b hb) ep eq same ne
              (subst (λ z. IsSplit (disk_links d) z q c) ia
                (subst (λ z. IsSplit (disk_links d) a'.id z c) ib split)),
        )
  ]

-- The parts of `GetCommonParentBlockid` in a row.
in_a_row :
    (d : Disk) (i j : Option ℕ) (a b a' b' : Block) (c : ℕ)
    → query_block d i ≡ ok a
    → query_block d j ≡ ok b
    → descend (suc a.height) d a b.height ≡ ok a'
    → descend (suc b.height) d b a'.height ≡ ok b'
    → meet (suc a'.height) d a' b' ≡ ok c
    → get_common_parent d i j ≡ ok c
unfolding get_common_parent
in_a_row d i j a b a' b' c ea eb ea' eb' ec =
    rw (ea, bind_outcome)
      (rw (eb, bind_outcome) (rw (ea', bind_outcome) (rw (eb', bind_outcome) ec)))

-- For any two stored blocks of a well-formed store `GetCommonParentBlockid` ends, and returns their
-- lowest common ancestor: an ancestor of both, of which every common ancestor is an ancestor.
pub get_common_parent_lem :
    (d : Disk) (i j : ℕ) (a b : Block)
    → IsStored d
    → lookup i d.blocks ≡ some a
    → lookup j d.blocks ≡ some b
    → (c : ℕ) × (get_common_parent d (some i) (some j) ≡ ok c) × IsSplit (disk_links d) i j c
get_common_parent_lem d i j a b w ha hb =
    let ia = w.filed i a ha in
    let ib = w.filed j b hb in
    let la = subst (λ z. lookup z d.blocks ≡ some a) (sym ia) ha in
    let lb = subst (λ z. lookup z d.blocks ≡ some b) (sym ib) hb in
    let (a', run1, ha', low1, at1, split1) =
      descend_lem d w (suc a.height) b.height a la (omega arith) in
    let (b', run2, hb', low2, at2, split2) =
      descend_lem d w (suc b.height) a'.height b lb (omega arith) in
    let (c, run3, split) =
      meet_lem d w (suc a'.height) a' b' ha' hb' (sym (at2 low1)) (omega arith) in
    let half : IsSplit (disk_links d) a'.id b.id c =
      IsSplit-sym (disk_links d) b.id a'.id c
        (split2 a' c ha' (omega arith) (IsSplit-sym (disk_links d) a'.id b'.id c split)) in
    let full : IsSplit (disk_links d) a.id b.id c = split1 b c lb (omega arith) half in
    (
      c,
      in_a_row d (some i) (some j) a b a' b' c (query_lem d w i a ha) (query_lem d w j b hb) run1
          run2 run3,
      subst (λ z. IsSplit (disk_links d) z j c) ia
          (subst (λ z. IsSplit (disk_links d) a.id z c) ib full),
    )
