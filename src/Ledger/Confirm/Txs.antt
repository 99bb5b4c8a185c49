-- ===== src/Ledger/Confirm/Txs.antt =====
-- The check of a block's transactions against those confirmed before.
use corechain.Ledger.Store.{Block, Disk, Outcome-cases, Tx, Write, ok}
use corechain.Ledger.Confirm.{Env, confirm_tx, confirm_txs}
use corechain.Prelude.{
  All, Bool-cases, List, [], ap, arith, contains, false, if◌then◌else◌, inl, inr, ltb, some, true,
  ℕ, ◌+◌, ◌<◌, ◌∙◌, ◌∷◌, ◌≡◌, ◌≤◌,
}
use corechain.Prelude.Dict.{Dict, has, lookup}

-- How many coinbases a list holds.
abbrev pub coinbases : List Tx → ℕ
coinbases [] = 0
coinbases (t ∷ ts) = if t.coinbase then coinbases ts + 1 else coinbases ts

-- Each transaction of a stored trunk block is in the table of confirmed transactions, under the
-- identifier of that block.
abbrev pub IsIndexed : Disk → Type 0
IsIndexed d =
    (i : ℕ) (ob : Block) (k : ℕ)
    → lookup i d.blocks ≡ some ob
    → ob.in_trunk ≡ true
    → contains k ob.tx_ids ≡ true
    → (old : Tx) × (lookup k d.confirmed ≡ some old) × (old.block_id ≡ i)

-- No stored trunk block at the split height or below lists the transaction.
abbrev pub IsNew : Disk → ℕ → Tx → Type 0
IsNew d h t =
    (i : ℕ) (ob : Block)
    → lookup i d.blocks ≡ some ob
    → ob.in_trunk ≡ true
    → ob.height ≤ h
    → contains t.id ob.tx_ids ≡ false

has_of_lookup : {V : Type 0} (k : ℕ) (d : Dict V) (v : V) → lookup k d ≡ some v → has k d ≡ true
has_of_lookup k [] v h = cc
has_of_lookup k ((j, w) ∷ d) v h = ground (arith, has_of_lookup k d v)

-- The record of a transaction that passes does not name a trunk block that low.
passed_record :
    (env : Env) (d : Disk) (b : Block) (h : ℕ) (t : Tx) (ws ws' : List Write) (old : Tx)
    (ob : Block)
    → env.dedup_off ≡ false
    → b.in_trunk ≡ true
    → confirm_tx env d b h t ws ≡ ok ws'
    → lookup t.id d.confirmed ≡ some old
    → lookup old.block_id d.blocks ≡ some ob
    → ob.in_trunk ≡ true
    → h < ob.height
unfolding confirm_tx
passed_record env d b h t ws ws' old ob on trunk e ho hb inside =
    ground (arith, has_of_lookup t.id d.confirmed old ho)

confirm_tx-IsNew :
    (env : Env) (d : Disk) (b : Block) (h : ℕ) (t : Tx) (ws ws' : List Write)
    → IsIndexed d
    → env.dedup_off ≡ false
    → b.in_trunk ≡ true
    → confirm_tx env d b h t ws ≡ ok ws'
    → IsNew d h t
confirm_tx-IsNew env d b h t ws ws' index on trunk e i ob hb inside low =
    elim (Bool-cases (contains t.id ob.tx_ids)) [
      | inr absent ↦ absent
      | inl listed ↦
          let (old, ho, at) = index i ob t.id hb inside listed in
          let above =
            passed_record env d b h t ws ws' old ob on trunk e ho
              (ap (λ z. lookup z d.blocks) at ∙ hb) inside in
          absurd (omega (arith, above, low))
    ]

-- Where the table of confirmed transactions indexes the stored trunk blocks, and with deduplication
-- on: a block for the trunk whose transactions pass the loop holds at most one coinbase, and none of
-- its transactions is listed by a stored trunk block at the split height or below.
pub confirm_txs-IsNew :
    (env : Env) (d : Disk) (b : Block) (h n : ℕ) (ts : List Tx) (ws ws' : List Write)
    → IsIndexed d
    → env.dedup_off ≡ false
    → b.in_trunk ≡ true
    → n ≤ 1
    → confirm_txs env d b h n ts ws ≡ ok ws'
    → (n + coinbases ts ≤ 1) × All (IsNew d h) ts
unfolding confirm_txs
confirm_txs-IsNew env d b h n [] ws ws' index on trunk le e = (omega arith, tt)
confirm_txs-IsNew env d b h n (t ∷ ts) ws ws' index on trunk le e =
    elim (Outcome-cases (confirm_tx env d b h t ws)) [
      | inl (ws1, e1) ↦
          let n' = if t.coinbase then n + 1 else n in
          let more : (ltb 1 n' ≡ false) × (confirm_txs env d b h n' ts ws1 ≡ ok ws') =
            ground arith in
          let rest =
            confirm_txs-IsNew env d b h n' ts ws1 ws' index on trunk (ground arith) more.1 in
          (ground (arith, rest.0), (confirm_tx-IsNew env d b h t ws ws1 index on trunk e1, rest.1))
      | inr (inl (x, e1)) ↦ absurd (ground arith)
      | inr (inr e1) ↦ absurd (ground arith)
    ]
