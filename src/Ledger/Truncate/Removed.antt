-- ===== src/Ledger/Truncate/Removed.antt =====
-- What the removal of a branch deletes.
use corechain.Ledger.Branch.Common.{disk_links}
use corechain.Ledger.Tree.{Ancestor, Ancestor-le, IsTree, Link, Links, self, up}
use corechain.Ledger.Store.{Block, Disk, Ledger, fetch_block, link_of, ok, perform, perform_all}
use corechain.Ledger.Truncate.{remove_block}
use corechain.Prelude.{
  Option-cases, ap, arith, false, if◌then◌else◌, inl, inr, none, refl, some, subst, suc, sym, true,
  ℕ, ◌<◌, ◌==◌, ◌∙◌, ◌≡◌, ◌≤◌, ◌⊎◌,
}
use corechain.Prelude.Dict.{lookup, lookup-erase, lookup-insert}

-- The cached headers are those on disk.
abbrev pub IsClean : Ledger → Type 0
IsClean s = (i : ℕ) (b : Block) → lookup i s.cache ≡ some b → lookup i s.disk.blocks ≡ some b

pub fetch-IsClean :
    (i : ℕ) (b : Block) (s : Ledger)
    → IsClean s
    → lookup i s.disk.blocks ≡ some b
    → let (r, t) = fetch_block (some i) s in
      (r ≡ ok b) × (t.disk ≡ s.disk) × (t.batch ≡ s.batch) × IsClean t
unfolding fetch_block
fetch-IsClean i b s clean h = elim (Option-cases (lookup i s.cache)) [
  | inl e ↦ (
    ground arith,
    ground arith,
    ground arith,
    λ j c k. ground (arith, lookup-insert i j b s.cache, clean j c),
  )
  | inr (c, e) ↦
      let same = clean i c e in
      (ground arith, ground arith, ground arith, λ j d k. ground (arith, clean j d))
]

pub remove-IsClean : (b : Block) (s : Ledger) → IsClean s → IsClean (remove_block b s)
unfolding remove_block
remove-IsClean b s clean j c k = ground (arith, lookup-erase b.id j s.cache, clean j c)

pub remove_disk : (b : Block) (s : Ledger) → (remove_block b s).disk ≡ s.disk
unfolding remove_block
remove_disk b s = ground arith

remove_batch :
    (b : Block) (s : Ledger) (d : Disk) (j : ℕ)
    → lookup j (perform_all (remove_block b s).batch d).blocks
      ≡ (if b.id == j then none else lookup j (perform_all s.batch d).blocks)
unfolding remove_block perform_all perform
remove_batch b s d j = ground (arith, lookup-erase b.id j (perform_all s.batch d).blocks)

Ancestor-cases :
    (l : Links) (e i : ℕ)
    → Ancestor l e i
    → (e ≡ i) ⊎ ((k : Link) × (p : ℕ) × (l i ≡ some k) × (k.pre ≡ some p) × Ancestor l e p)
Ancestor-cases l e i (self s) = inl s
Ancestor-cases l e i (up k p h g a) = inr (k, p, h, g, a)

-- The deletions of a walk from the block `i` down to the height `h`.
pub record Removed (s t : Ledger) (i h : ℕ) : Type 0 where
  pub disk_kept : t.disk ≡ s.disk
  pub clean : IsClean t
  pub gone :
      (d : Disk) (j : ℕ) (k : Block)
      → Ancestor (disk_links s.disk) j i
      → lookup j s.disk.blocks ≡ some k
      → h < k.height
      → lookup j (perform_all t.batch d).blocks ≡ none
  pub off_branch :
      (d : Disk) (j : ℕ)
      → ¬ Ancestor (disk_links s.disk) j i
      → lookup j (perform_all t.batch d).blocks ≡ lookup j (perform_all s.batch d).blocks
  pub low :
      (d : Disk) (j : ℕ) (k : Block)
      → lookup j s.disk.blocks ≡ some k
      → k.height ≤ h
      → lookup j (perform_all t.batch d).blocks ≡ lookup j (perform_all s.batch d).blocks

pub link_at :
    (d : Disk) (j : ℕ) (k : Block) → lookup j d.blocks ≡ some k → disk_links d j ≡ some (link_of k)
link_at d j k h = rw (h, disk_links)

not_higher :
    (d : Disk) (t : IsTree (disk_links d)) (j i : ℕ) (k b : Block)
    → lookup j d.blocks ≡ some k
    → lookup i d.blocks ≡ some b
    → Ancestor (disk_links d) j i
    → k.height ≤ b.height
not_higher d t j i k b hk hb a =
    let (m, hm, le) = Ancestor-le (disk_links d) t (link_of b) (link_at d i b hb) a in
    let same : m ≡ link_of k = ground (arith, link_at d j k hk) in
    rw (← ap (λ (z : Link). z.height) same) le

-- The walk has come down already.
pub stopped :
    (s : Ledger) (t : IsTree (disk_links s.disk)) (b : Block) (h : ℕ)
    → IsClean s
    → lookup b.id s.disk.blocks ≡ some b
    → b.height ≤ h
    → Removed s s b.id h
stopped s t b h clean hb le = record {
  disk_kept = refl;
  clean = clean;
  gone = λ d j k a hk high. absurd (omega (arith, not_higher s.disk t j b.id k b hk hb a));
  off_branch = λ d j no_way. refl;
  low = λ d j k hk low. refl;
}

-- One more block above a walk from its parent.
pub one_more :
    (s u v : Ledger) (t : IsTree (disk_links s.disk)) (b c : Block) (p h : ℕ)
    → lookup b.id s.disk.blocks ≡ some b
    → b.pre ≡ some p
    → lookup p s.disk.blocks ≡ some c
    → b.height ≡ suc c.height
    → h < b.height
    → u.disk ≡ s.disk
    → u.batch ≡ (remove_block b s).batch
    → Removed u v p h
    → Removed s v b.id h
one_more s u v t b c p h hb pre hc step high same batch r = record {
  disk_kept = r.disk_kept ∙ same;
  clean = r.clean;
  gone = λ d j k a hk far. elim (Ancestor-cases (disk_links s.disk) j b.id a) [
    | inl at ↦
        let is_b : k ≡ b = ground arith in
        let above : ¬ Ancestor (disk_links s.disk) j p = λ x.
          let le = not_higher s.disk t j p k c hk hc x in
          omega (arith, ap (λ (z : Block). z.height) is_b) in
        let hit : (b.id == j) ≡ true = ground arith in
        r.off_branch d j (subst (λ z. ¬ Ancestor (disk_links z) j p) (sym same) above)
        ∙ effect d j
        ∙ rw hit refl
    | inr (m, p', hm, pre', x) ↦
        let is_link : m ≡ link_of b = ground (arith, link_at s.disk b.id b hb) in
        let is_p : p' ≡ p = ground (arith, ap (λ (z : Link). z.pre) is_link) in
        r.gone d j k
          (subst (λ z. Ancestor (disk_links z) j p) (sym same)
            (subst (λ z. Ancestor (disk_links s.disk) j z) is_p x))
          (ap (λ (z : Disk). lookup j z.blocks) same ∙ hk) far
  ];
  off_branch = λ d j no_way.
      let other : (b.id == j) ≡ false = apart j (λ x. no_way (self (sym x))) in
      let below : ¬ Ancestor (disk_links s.disk) j p =
        λ x. no_way (up (link_of b) p (link_at s.disk b.id b hb) pre x) in
      r.off_branch d j (subst (λ z. ¬ Ancestor (disk_links z) j p) (sym same) below)
      ∙ effect d j
      ∙ rw other refl;
  low = λ d j k hk low.
      let other : (b.id == j) ≡ false = apart j (λ x.
        let is_b : k ≡ b = ground arith in omega (arith, ap (λ (z : Block). z.height) is_b)) in
      r.low d j k (ap (λ (z : Disk). lookup j z.blocks) same ∙ hk) low ∙ effect d j ∙ rw other refl;
}
  where
    effect :
        (d : Disk) (j : ℕ)
        → lookup j (perform_all u.batch d).blocks
          ≡ (if b.id == j then none else lookup j (perform_all s.batch d).blocks)
    effect d j = ap (λ z. lookup j (perform_all z d).blocks) batch ∙ remove_batch b s d j

    apart : (j : ℕ) → ¬ (b.id ≡ j) → (b.id == j) ≡ false
    apart j ne = ground arith
