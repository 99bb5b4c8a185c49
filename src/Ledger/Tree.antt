-- ===== src/Ledger/Tree.antt =====
-- The block tree behind the ledger: each stored block has a link to its parent and a height. The
-- split point of two blocks is their lowest common ancestor.
use corechain.Prelude.{Option, ap, arith, none, refl, some, subst, suc, sym, ℕ, ◌<◌, ◌≡◌, ◌≢◌, ◌≤◌}

pub record Link : Type 0 where
  pub pre : Option ℕ
  pub height : ℕ

abbrev pub Links : Type 0
Links = ℕ → Option Link

-- Every parent is stored one step below, only a root has height 0, and there is one root.
pub record IsTree (l : Links) : Type 0 where
  pub parent :
      (i : ℕ) (k : Link) (p : ℕ)
      → l i ≡ some k
      → k.pre ≡ some p
      → (q : Link) × (l p ≡ some q) × (k.height ≡ suc q.height)
  pub root : (i : ℕ) (k : Link) → l i ≡ some k → k.pre ≡ none → k.height ≡ 0
  pub one_root :
      (i j : ℕ) (k m : Link) → l i ≡ some k → l j ≡ some m → k.pre ≡ none → m.pre ≡ none → i ≡ j

-- `e` is the block itself or is reached from it by parent links.
pub data Ancestor (l : Links) (e : ℕ) : ℕ → Type 0 where
  self : {i : ℕ} → e ≡ i → Ancestor l e i
  up : {i : ℕ} (k : Link) (p : ℕ) → l i ≡ some k → k.pre ≡ some p → Ancestor l e p → Ancestor l e i

pub record IsSplit (l : Links) (a b c : ℕ) : Type 0 where
  pub of_left : Ancestor l c a
  pub of_right : Ancestor l c b
  pub lowest : (e : ℕ) → Ancestor l e a → Ancestor l e b → Ancestor l e c

module _ (l : Links) (t : IsTree l) where
  -- An ancestor is stored, and no higher.
  pub Ancestor-le :
      {e i : ℕ} (k : Link)
      → l i ≡ some k
      → Ancestor l e i
      → (m : Link) × (l e ≡ some m) × (m.height ≤ k.height)
  Ancestor-le k h (self same) = (k, rw same h, omega arith)
  Ancestor-le k h (up k' p h' e a) =
      let (q, hq, step) = t.parent _ k' p h' e in
      let (m, hm, le) = Ancestor-le q hq a in
      let same : k ≡ k' = cc in (m, hm, rw same (omega arith))

  -- An ancestor at the same height is the block itself.
  pub Ancestor-eq :
      {e i : ℕ} (k m : Link)
      → l i ≡ some k
      → l e ≡ some m
      → m.height ≡ k.height
      → Ancestor l e i
      → e ≡ i
  Ancestor-eq k m h hm same (self s) = s
  Ancestor-eq k m h hm same (up k' p h' e a) =
      let (q, hq, step) = t.parent _ k' p h' e in
      let (m', hm', le) = Ancestor-le q hq a in
      let sk : k ≡ k' = cc in
      let sm : m ≡ m' = cc in
      absurd (omega (arith, ap (λ (x : Link). x.height) sk, ap (λ (x : Link). x.height) sm))

  -- A proper ancestor is an ancestor of the parent.
  pub Ancestor-parent :
      {e i : ℕ} (k : Link) (p : ℕ)
      → l i ≡ some k
      → k.pre ≡ some p
      → e ≢ i
      → Ancestor l e i
      → Ancestor l e p
  Ancestor-parent k p h hp ne (self s) = absurd (ne s)
  Ancestor-parent k p h hp ne (up k' p' h' e a) =
      let sk : k ≡ k' = cc in let sp : p' ≡ p = cc (sk) in subst (Ancestor l _) sp a

  -- The higher of two blocks may be replaced by its parent.
  pub IsSplit-up_left :
      (a b c p : ℕ) (k m : Link)
      → l a ≡ some k
      → l b ≡ some m
      → k.pre ≡ some p
      → m.height < k.height
      → IsSplit l p b c
      → IsSplit l a b c
  IsSplit-up_left a b c p k m ha hb hp lt s = record {
    of_left = up k p ha hp s.of_left;
    of_right = s.of_right;
    lowest = λ e x y. s.lowest e (Ancestor-parent k p ha hp (λ same. too_high e same y) x) y;
  }
    where
      too_high : (e : ℕ) → e ≡ a → Ancestor l e b → ⊥
      too_high e same y =
          let (n, hn, le) = Ancestor-le m hb y in
          let sk : n ≡ k = cc in omega (arith, ap (λ (x : Link). x.height) sk)

  -- Two blocks at one height may both be replaced by their parents.
  pub IsSplit-up_both :
      (a b c p q : ℕ) (k m : Link)
      → l a ≡ some k
      → l b ≡ some m
      → k.pre ≡ some p
      → m.pre ≡ some q
      → k.height ≡ m.height
      → a ≢ b
      → IsSplit l p q c
      → IsSplit l a b c
  IsSplit-up_both a b c p q k m ha hb hp hq same ne s = record {
    of_left = up k p ha hp s.of_left;
    of_right = up m q hb hq s.of_right;
    lowest = λ e x y.
        s.lowest e
          (Ancestor-parent k p ha hp
            (λ ea. ne (Ancestor-eq m k hb ha same (subst (λ z. Ancestor l z b) ea y))) x)
          (Ancestor-parent m q hb hq
            (λ eb. ne (sym (Ancestor-eq k m ha hb (sym same) (subst (λ z. Ancestor l z a) eb x))))
            y);
  }

pub IsSplit-self : (l : Links) (a : ℕ) → IsSplit l a a a
IsSplit-self l a = record { of_left = self refl; of_right = self refl; lowest = λ e x y. x }

pub IsSplit-sym : (l : Links) (a b c : ℕ) → IsSplit l a b c → IsSplit l b a c
IsSplit-sym l a b c s = record {
  of_left = s.of_right;
  of_right = s.of_left;
  lowest = λ e x y. s.lowest e y x;
}
