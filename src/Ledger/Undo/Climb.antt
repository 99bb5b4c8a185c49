-- ===== src/Ledger/Undo/Climb.antt =====
-- One side of the walk of `FindUndoAndTodoBlocks` climbs to its parent.
use corechain.Ledger.Store.{Block, Disk, link_of}
use corechain.Ledger.Tree.{
  Ancestor, Ancestor-eq, Ancestor-le, Ancestor-parent, IsSplit, Link, Links, self, up,
}
use corechain.Ledger.Branch.Common.{IsStored, disk_links, high_lem, link_lem}
use corechain.Prelude.{
  ==_iff, Bool-cases, List, ap, arith, contains, false, inl, inr, refl, some, subst, suc, sym, true,
  ℕ, ◌<◌, ◌==◌, ◌∷◌, ◌≡◌, ◌≢◌, ◌≤◌, ◌⊎◌,
}
use corechain.Prelude.Dict.{lookup}

-- An ancestor's parent is an ancestor.
pub Ancestor-up :
    (l : Links) (x i p : ℕ) (k : Link)
    → l x ≡ some k
    → k.pre ≡ some p
    → Ancestor l x i
    → Ancestor l p i
Ancestor-up l x i p k h hp (self s) = subst (Ancestor l p) s (up k p h hp (self refl))
Ancestor-up l x i p k h hp (up k' p' h' e a) = up k' p' h' e (Ancestor-up l x p' p k h hp a)

-- The two sides have come up from `cur` and `dest` to `x` and `y`, and have seen the blocks on the
-- way; no block that both come from was passed.
pub record Apart (d : Disk) (cur dest : ℕ) (x y : Block) (seen : List ℕ) : Type 0 where
  pub stored_left : lookup x.id d.blocks ≡ some x
  pub stored_right : lookup y.id d.blocks ≡ some y
  pub left : Ancestor (disk_links d) x.id cur
  pub right : Ancestor (disk_links d) y.id dest
  pub above :
      (e : ℕ)
      → Ancestor (disk_links d) e cur
      → Ancestor (disk_links d) e dest
      → Ancestor (disk_links d) e x.id × Ancestor (disk_links d) e y.id
  pub apart : x.id ≢ y.id
  pub seen_left : contains x.id seen ≡ true
  pub seen_right : contains y.id seen ≡ true
  pub only :
      (i : ℕ)
      → contains i seen ≡ true
      → (Ancestor (disk_links d) i cur × Ancestor (disk_links d) x.id i)
        ⊎ (Ancestor (disk_links d) i dest × Ancestor (disk_links d) y.id i)
  pub near_left : (y.id ≡ dest) ⊎ (x.height ≤ suc y.height)
  pub near_right : (x.id ≡ cur) ⊎ (y.height ≤ suc x.height)

abbrev other_side : {A B : Type 0} → A ⊎ B → B ⊎ A
other_side (inl a) = inr a
other_side (inr b) = inl b

pub Apart-swap :
    (d : Disk) (cur dest : ℕ) (x y : Block) (seen : List ℕ)
    → Apart d cur dest x y seen
    → Apart d dest cur y x seen
Apart-swap d cur dest x y seen s = record {
  stored_left = s.stored_right;
  stored_right = s.stored_left;
  left = s.right;
  right = s.left;
  above = λ e u v. let (p, q) = s.above e v u in (q, p);
  apart = λ e. s.apart (sym e);
  seen_left = s.seen_right;
  seen_right = s.seen_left;
  only = λ i h. other_side (s.only i h);
  near_left = s.near_right;
  near_right = s.near_left;
}

module _ (d : Disk) (w : IsStored d) (b c : Block) (hb : lookup b.id d.blocks ≡ some b)
    (hc : lookup c.id d.blocks ≡ some c) (a : Ancestor (disk_links d) b.id c.id) where
  Ancestor-low : b.height ≤ c.height
  Ancestor-low =
      let (m, hm, low) = Ancestor-le (disk_links d) w.tree (link_of c) (link_lem d w c.id c hc) a in
      let same : m ≡ link_of b = cc (hm, link_lem d w b.id b hb) in
      omega (arith, low, ap (λ (z : Link). z.height) same)

  Ancestor-same : c.height ≤ b.height → b.id ≡ c.id
  Ancestor-same le =
      Ancestor-eq (disk_links d) w.tree (link_of c) (link_of b) (link_lem d w c.id c hc)
        (link_lem d w b.id b hb) (omega (arith, Ancestor-low)) a

module _ (d : Disk) (w : IsStored d) (cur dest : ℕ) (x y : Block) (seen : List ℕ)
    (s : Apart d cur dest x y seen) (le : y.height ≤ x.height) where
  -- The higher side is above height 0.
  pub Apart-high : 0 < x.height
  Apart-high = elim (Bool-cases (x.height == y.height)) [
    | inl e ↦ high_lem d w x y s.stored_left s.stored_right ((==_iff x.height y.height).0 e) s.apart
    | inr e ↦ ground arith
  ]

  -- A common ancestor is not the higher side itself.
  not_self : (e : ℕ) → Ancestor (disk_links d) e cur → Ancestor (disk_links d) e dest → e ≢ x.id
  not_self e u v same =
      let (_, on_y) = s.above e u v in
      let xy : Ancestor (disk_links d) x.id y.id =
        subst (λ z. Ancestor (disk_links d) z y.id) same on_y in
      s.apart (Ancestor-same d w x y s.stored_left s.stored_right xy le)

  module _ (p : Block) (pid : x.pre ≡ some p.id) (stored : lookup p.id d.blocks ≡ some p)
      (step : x.height ≡ suc p.height) where
    still_above :
        (e : ℕ)
        → Ancestor (disk_links d) e cur
        → Ancestor (disk_links d) e dest
        → Ancestor (disk_links d) e p.id
    still_above e u v =
        let (on_x, _) = s.above e u v in
        Ancestor-parent (disk_links d) w.tree (link_of x) p.id (link_lem d w x.id x s.stored_left)
          pid (not_self e u v) on_x

    -- The parent was seen: it is the split, and the place of the other side.
    pub seen-IsSplit :
        contains p.id seen ≡ true → IsSplit (disk_links d) cur dest p.id × (p.id ≡ y.id)
    seen-IsSplit h = elim (s.only p.id h) [
      | inl (u, v) ↦ absurd (omega (arith, Ancestor-low d w x p s.stored_left stored v))
      | inr (u, v) ↦ (
        record {
          of_left =
              Ancestor-up (disk_links d) x.id cur p.id (link_of x)
                (link_lem d w x.id x s.stored_left) pid s.left;
          of_right = u;
          lowest = still_above;
        },
        sym (
            Ancestor-same d w y p s.stored_right stored v (elim s.near_left [
              | inr near ↦ omega arith
              | inl e ↦
                  Ancestor-low d w p y stored s.stored_right
                    (subst (λ z. Ancestor (disk_links d) p.id z) (sym e) u)
            ])),
      )
    ]

    -- The parent was not seen: the walk goes on.
    pub climb-Apart : contains p.id seen ≡ false → Apart d cur dest p y (p.id ∷ seen)
    climb-Apart h = record {
      stored_left = stored;
      stored_right = s.stored_right;
      left =
          Ancestor-up (disk_links d) x.id cur p.id (link_of x) (link_lem d w x.id x s.stored_left)
            pid s.left;
      right = s.right;
      above = λ e u v. let (_, on_y) = s.above e u v in (still_above e u v, on_y);
      apart = λ e. cc (h, ap (λ z. contains z seen) e, s.seen_right);
      seen_left = ground arith;
      seen_right = ground (arith, s.seen_right);
      only = λ i hi. elim (Bool-cases (i == p.id)) [
        | inl same ↦
            let e : i ≡ p.id = (==_iff i p.id).0 same in
            inl (
              subst (λ z. Ancestor (disk_links d) z cur) (sym e)
                  (Ancestor-up (disk_links d) x.id cur p.id (link_of x)
                    (link_lem d w x.id x s.stored_left) pid s.left),
              self (sym e),
            )
        | inr other ↦ elim (s.only i (ground arith)) [
          | inl (u, v) ↦ inl (
            u,
            Ancestor-up (disk_links d) x.id i p.id (link_of x) (link_lem d w x.id x s.stored_left)
                pid v,
          )
          | inr r ↦ inr r
        ]
      ];
      near_left = elim s.near_left [ inl e ↦ inl e | inr e ↦ inr (omega arith) ];
      near_right = inr (omega arith);
    }
