-- ===== src/Ledger/Store.antt =====
-- The state of ledger/ledger.go: the tables on disk, the cache of block headers, and the batch of
-- writes that is put to disk as a whole. Block and transaction identifiers are only compared, so
-- they are numbers; an empty hash is `none`. The header cache is taken without its bound on size,
-- and encoding and decoding of a stored value succeed.
use corechain.Prelude.{
  Bool, List, Option, [], if◌then◌else◌, inl, inr, none, refl, some, true, ℕ, ◌&&◌, ◌==◌, ◌∷◌, ◌≡◌,
  ◌⊎◌,
}
use corechain.Prelude.Dict.{Dict, erase, has, insert, lookup}
use corechain.Ledger.Tree.{Link, Links}

pub record Block : Type 0 where
  pub id : ℕ
  pub pre : Option ℕ
  pub height : ℕ
  pub in_trunk : Bool
  pub next : Option ℕ
  pub tx_ids : List ℕ

pub record Tx : Type 0 where
  pub id : ℕ
  pub block_id : ℕ
  pub coinbase : Bool

pub record Meta : Type 0 where
  pub root : Option ℕ
  pub tip : Option ℕ
  pub trunk_height : ℕ

pub record Disk : Type 0 where
  pub blocks : Dict Block
  pub heights : Dict ℕ
  pub branches : Dict ℕ
  pub confirmed : Dict Tx
  pub meta : Meta

pub data Write : Type 0 where
  put_block : Block → Write
  delete_block : ℕ → Write
  put_height : ℕ → ℕ → Write
  delete_height : ℕ → Write
  put_branch : ℕ → ℕ → Write
  delete_branch : ℕ → Write
  put_tx : Tx → Write
  put_meta : Meta → Write

pub record Ledger : Type 0 where
  pub disk : Disk
  pub cache : Dict Block
  pub batch : List Write
  pub meta : Meta

unfoldable pub perform : Write → Disk → Disk
perform (put_block b) d = record d { blocks = insert b.id b d.blocks }
perform (delete_block i) d = record d { blocks = erase i d.blocks }
perform (put_height h i) d = record d { heights = insert h i d.heights }
perform (delete_height h) d = record d { heights = erase h d.heights }
perform (put_branch i h) d = record d { branches = insert i h d.branches }
perform (delete_branch i) d = record d { branches = erase i d.branches }
perform (put_tx t) d = record d { confirmed = insert t.id t d.confirmed }
perform (put_meta m) d = record d { meta = m }

-- The batch is kept with its latest write first.
unfoldable pub perform_all : List Write → Disk → Disk
perform_all [] d = d
perform_all (w ∷ ws) d = perform w (perform_all ws d)

pub data Error : Type 0 where
  block_not_found tx_not_found tx_duplicated root_exists write_failed bad_block : Error
  genesis_failed : Error

-- `out_of_fuel` stands for a loop that has not ended after the rounds allowed.
pub data Outcome (A : Type 0) : Type 0 where
  ok : A → Outcome A
  err : Error → Outcome A
  out_of_fuel : Outcome A

abbrev pub Action : Type 0 → Type 0
Action A = Ledger → Outcome A × Ledger

module _ {A : Type 0} where
  abbrev pub pure : A → Action A
  pure a s = (ok a, s)

  abbrev pub raise : Error → Action A
  raise e s = (err e, s)

infixl 5 ◌>>=◌ ◌>>◌
abbrev pub ◌>>=◌ : {A B : Type 0} → Action A → (A → Action B) → Action B
◌>>=◌ m f s =
    let (r, s') = m s in
    elim r [ ok a ↦ f a s' | err e ↦ (err e, s') | out_of_fuel ↦ (out_of_fuel, s') ]

abbrev pub ◌>>◌ : {A B : Type 0} → Action A → Action B → Action B
m >> k = m >>= λ _. k

abbrev pub add_write : Write → Action (Unit {0})
add_write w s = (ok tt, record s { batch = w ∷ s.batch })

-- The header that a read finds: the cached one, or else the stored one.
abbrev pub header : Ledger → ℕ → Option Block
header s i = elim (lookup i s.cache) [ some b ↦ some b | none ↦ lookup i s.disk.blocks ]

abbrev pub link_of : Block → Link
link_of b = record { pre = b.pre; height = b.height }

abbrev pub links : Ledger → Links
links s i = elim (header s i) [ some b ↦ some (link_of b) | none ↦ none ]

-- `fetchBlock`, which fills the cache.
fetch_some : ℕ → Action Block
fetch_some i s = elim (lookup i s.cache) [
  | some b ↦ (ok b, s)
  | none ↦ elim (lookup i s.disk.blocks) [
    | some b ↦ (ok b, record s { cache = insert i b s.cache })
    | none ↦ (err block_not_found, s)
  ]
]

unfoldable pub fetch_block : Option ℕ → Action Block
unfolding fetch_some
fetch_block none s = (err block_not_found, s)
fetch_block (some i) s = fetch_some i s

-- `saveBlock`: the header goes into the cache at once, and into the batch.
unfoldable pub save_block : Block → Action (Unit {0})
save_block b s =
    let t = record s { cache = insert b.id b s.cache; batch = put_block b ∷ s.batch } in
    (ok tt, if b.in_trunk then record t { batch = put_height b.height b.id ∷ t.batch } else t)

-- The loop of `correctTxsBlockid`; `queryBlock` with the body reads each transaction first.
unfoldable pub has_all : List ℕ → Dict Tx → Bool
has_all [] d = true
has_all (i ∷ is) d = has i d && has_all is d

correct_tx : ℕ → Option Tx → List Write → List Write
correct_tx i none ws = ws
correct_tx i (some t) ws = if t.block_id == i then ws else put_tx (record t { block_id = i }) ∷ ws

correct_loop : ℕ → List ℕ → Dict Tx → List Write → List Write
unfolding correct_tx
correct_loop i [] d ws = ws
correct_loop i (t ∷ ts) d ws = correct_loop i ts d (correct_tx i (lookup t d) ws)

unfoldable pub correct_txs_blockid : ℕ → Action (Unit {0})
unfolding correct_loop has_all
correct_txs_blockid i s = elim (lookup i s.disk.blocks) [
  | none ↦ (err block_not_found, s)
  | some b ↦
      if has_all b.tx_ids s.disk.confirmed
      then (ok tt, record s { batch = correct_loop i b.tx_ids s.disk.confirmed s.batch })
      else (err tx_not_found, s)
]

-- A chain goes on after a part that succeeds, and ends with one that does not.
pub bind_ok :
    {A B : Type 0} (m : Action A) (f : A → Action B) (s : Ledger) (a : A)
    → (m s).0 ≡ ok a
    → (m >>= f) s ≡ f a (m s).1
bind_ok m f s a h = rw (h, ◌>>=◌)

pub bind_err :
    {A B : Type 0} (m : Action A) (f : A → Action B) (s : Ledger) (e : Error)
    → (m s).0 ≡ err e
    → (m >>= f) s ≡ (err e, (m s).1)
bind_err m f s e h = rw (h, ◌>>=◌)

pub Outcome-cases :
    {A : Type 0} (r : Outcome A)
    → ((a : A) × (r ≡ ok a)) ⊎ ((e : Error) × (r ≡ err e)) ⊎ (r ≡ out_of_fuel)
Outcome-cases (ok a) = inl (a, refl)
Outcome-cases (err e) = inr (inl (e, refl))
Outcome-cases out_of_fuel = inr (inr refl)
