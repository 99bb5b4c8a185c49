-- ===== src/Ledger/Truncate/Walk.antt =====
-- The whole walk of `removeBlocks`.
use corechain.Ledger.Store.{Block, Disk, Ledger, fetch_block, link_of, ok}
use corechain.Ledger.Truncate.{remove_block, remove_loop}
use corechain.Ledger.Truncate.Removed.{
  IsClean, Removed, fetch-IsClean, link_at, one_more, remove-IsClean, remove_disk, stopped,
}
use corechain.Ledger.Branch.Common.{disk_links}
use corechain.Ledger.Tree.{IsTree, Link}
use corechain.Prelude.{
  Bool-cases, Option-cases, ap, arith, false, inl, inr, ltb, ltb→lt, refl, some, subst, suc, sym,
  true, zero, ℕ, ◌<◌, ◌∙◌, ◌≡◌,
}
use corechain.Prelude.Dict.{lookup}

-- The parent of a stored block that is not at height 0.
stored_parent :
    (d : Disk) (t : IsTree (disk_links d)) (b : Block)
    → lookup b.id d.blocks ≡ some b
    → 0 < b.height
    → (p : ℕ) × (c : Block) × (b.pre ≡ some p)
      × (lookup p d.blocks ≡ some c)
      × (b.height ≡ suc c.height)
stored_parent d t b hb lt = elim (Option-cases b.pre) [
  | inl e ↦ absurd (omega (arith, t.root b.id (link_of b) (link_at d b.id b hb) e))
  | inr (p, e) ↦
      let (q, hq, step) = t.parent b.id (link_of b) p (link_at d b.id b hb) e in
      elim (Option-cases (lookup p d.blocks)) [
        | inl gone ↦ absurd (ground arith)
        | inr (c, hc) ↦
            let same : q ≡ link_of c = ground (arith, link_at d p c hc) in
            (p, c, e, hc, rw (← ap (λ (z : Link). z.height) same) step)
      ]
]

round :
    (fuel h p : ℕ) (b c : Block) (s : Ledger)
    → ltb h b.height ≡ true
    → b.pre ≡ some p
    → (fetch_block (some p) (remove_block b s)).0 ≡ ok c
    → remove_loop (suc fuel) b h s
      ≡ remove_loop fuel c h (fetch_block (some p) (remove_block b s)).1
unfolding remove_loop
round fuel h p b c s e pre f =
    let f' : (fetch_block b.pre (remove_block b s)).0 ≡ ok c =
      ap (λ z. (fetch_block z (remove_block b s)).0) pre ∙ f in
    rw (e, remove_loop)
      (rw f' (ap (λ z. remove_loop fuel c h (fetch_block z (remove_block b s)).1) pre))

over :
    (fuel h : ℕ) (b : Block) (s : Ledger)
    → ltb h b.height ≡ false
    → remove_loop (suc fuel) b h s ≡ (ok tt, s)
unfolding remove_loop
over fuel h b s e = rw (e, remove_loop) refl

-- In a tree of stored blocks filed by identifier, with the cached headers as on disk, the removal of
-- a branch from a stored block down to a height ends within as many rounds as the height of that block
-- and one more and succeeds; the batch that it leaves deletes every block of the branch above the
-- height, and changes nothing at other blocks.
pub remove_loop-Removed :
    (fuel h : ℕ) (b : Block) (s : Ledger)
    → ((i : ℕ) (c : Block) → lookup i s.disk.blocks ≡ some c → c.id ≡ i)
    → IsTree (disk_links s.disk)
    → IsClean s
    → lookup b.id s.disk.blocks ≡ some b
    → b.height < fuel
    → ((remove_loop fuel b h s).0 ≡ ok tt) × Removed s (remove_loop fuel b h s).1 b.id h
remove_loop-Removed zero h b s filed t clean hb lt = absurd (omega arith)
remove_loop-Removed (suc fuel) h b s filed t clean hb lt = elim (Bool-cases (ltb h b.height)) [
  | inr e ↦ rw (over fuel h b s e) (refl, stopped s t b h clean hb (ground arith))
  | inl e ↦
      let high = ltb→lt h b.height e in
      let (p, c, pre, hc, step) = stored_parent s.disk t b hb (omega (arith, high)) in
      let s1 = remove_block b s in
      let d1 = remove_disk b s in
      let (f, d2, w, clean2) =
        fetch-IsClean p c s1 (remove-IsClean b s clean)
          (ap (λ (z : Disk). lookup p z.blocks) d1 ∙ hc) in
      let u = (fetch_block (some p) s1).1 in
      let same : u.disk ≡ s.disk = d2 ∙ d1 in
      let cp = filed p c hc in
      let (done, rest) =
        remove_loop-Removed fuel h c u
          (λ i x k. filed i x (ap (λ (z : Disk). lookup i z.blocks) (sym same) ∙ k))
          (subst (λ z. IsTree (disk_links z)) (sym same) t) clean2
          (subst (λ z. lookup z u.disk.blocks ≡ some c) (sym cp)
            (ap (λ (z : Disk). lookup p z.blocks) same ∙ hc))
          (omega (arith, step)) in
      let there = subst (λ z. Removed u (remove_loop fuel c h u).1 z h) cp rest in
      subst (λ r. (r.0 ≡ ok tt) × Removed s r.1 b.id h) (sym (round fuel h p b c s e pre f))
        (done, one_more s u (remove_loop fuel c h u).1 t b c p h hb pre hc step high same w there)
]
