-- ===== src/Contract/Sandbox.antt =====
-- contract/sandbox/xmcache.go and mem_xmodel.go: the cache that a contract reads and writes through,
-- whose read and write sets go into the transaction. A key stands for its bucket and key together.
-- The red-black tree is the parameter `TreeMap`, the store of versioned data the parameter `Reader`.
pub mod Replay
pub mod Select
mod Examples
use corechain.Prelude.{Bool, Option, [], false, if◌then◌else◌, none, some, ℕ, ◌==◌, ◌∷◌, ◌≡◌}
use corechain.Prelude.Dict.{Dict, IsKeyed, lookup}

-- `VersionedData`, by what the cache reads of it.
pub record Versioned : Type 0 where
  pub ref_txid : Option ℕ
  pub ref_offset : ℕ
  pub value : ℕ

-- What the tree is relied on for: its entries are those that were put, each key once.
pub record TreeMap (V : Type 0) : Type 1 where
  pub Tree : Type 0
  pub empty : Tree
  pub get : ℕ → Tree → Option V
  pub put : ℕ → V → Tree → Tree
  pub entries : Tree → Dict V
  pub get-empty : (k : ℕ) → get k empty ≡ none
  pub get-put :
      (k j : ℕ) (v : V) (t : Tree) → get j (put k v t) ≡ (if k == j then some v else get j t)
  pub get-entries : (k : ℕ) (t : Tree) → lookup k (entries t) ≡ get k t
  pub entries-IsKeyed : (t : Tree) → IsKeyed (entries t)

-- What a reader of versioned data answers: the data, `ErrNotFound`, or another error.
pub data Read : Type 0 where
  got : Versioned → Read
  missing failing : Read

abbrev pub Reader : Type 0
Reader = ℕ → Read

-- `DelFlag`
abbrev pub del_flag : ℕ
del_flag = 0

-- `IsEmptyVersionedData`
abbrev pub is_empty_versioned_data : Versioned → Bool
is_empty_versioned_data d = elim d.ref_txid [ none ↦ d.ref_offset == 0 | some i ↦ false ]

-- The results of `Get`: a value, or one of its errors.
pub data Answer : Type 0 where
  found : ℕ → Answer
  not_found has_del unreadable : Answer

abbrev pub judge : Versioned → Answer
judge d =
    if is_empty_versioned_data d
    then not_found
    else (if d.value == del_flag then has_del else found d.value)

-- `MemXModel.Get` on what the tree holds.
abbrev pub as_read : Option Versioned → Read
as_read none = missing
as_read (some d) = got d

module _ (m : TreeMap Versioned) (o : TreeMap ℕ) where
  -- `XMCache`
  pub record Cache : Type 0 where
    pub inputs : m.Tree
    pub outputs : o.Tree

  abbrev pub new_cache : Cache
  new_cache = record { inputs = m.empty; outputs = o.empty }

  -- `getAndSetFromInputsCache` and the rest of `Get` behind it, once the outputs have no entry.
  abbrev pub fill_inputs : ℕ → Read → Cache → Answer × Cache
  fill_inputs k missing c = (not_found, c)
  fill_inputs k failing c = (unreadable, c)
  fill_inputs k (got d) c = (judge d, record c { inputs = m.put k d c.inputs })

  abbrev pub from_inputs : Option Versioned → Reader → ℕ → Cache → Answer × Cache
  from_inputs (some d) r k c = (judge d, c)
  from_inputs none r k c = fill_inputs k (r k) c

  abbrev pub from_outputs : Option ℕ → Reader → ℕ → Cache → Answer × Cache
  from_outputs (some v) r k c = (if v == del_flag then has_del else found v, c)
  from_outputs none r k c = from_inputs (m.get k c.inputs) r k c

  -- `Get`
  unfoldable pub xm_get : Reader → ℕ → Cache → Answer × Cache
  xm_get r k c = from_outputs (o.get k c.outputs) r k c

  -- `Put`, and `Del` with the flag for the value; `transient` says that the bucket is the transient
  -- one.
  unfoldable pub xm_put : Reader → Bool → ℕ → ℕ → Cache → Cache
  xm_put r transient k v c =
      let c' = if transient then c else (xm_get r k c).1 in
      record c' { outputs = o.put k v c'.outputs }

  -- A contract, as it sees the cache: what it does next depends on what it has read.
  pub data Program : Type 0 where
    returns : ℕ → Program
    reads : ℕ → (Answer → Program) → Program
    writes : Bool → ℕ → ℕ → Program → Program

  unfoldable pub run : Reader → Program → Cache → ℕ × Cache
  run r (returns n) c = (n, c)
  run r (reads k next) c = run r (next ((xm_get r k c).0)) ((xm_get r k c).1)
  run r (writes transient k v p) c = run r p (xm_put r transient k v c)

  -- `XMReaderFromRWSet`: the reader of the pairs of a read set, to which other keys are not found.
  unfoldable pub put_all : Dict Versioned → m.Tree → m.Tree
  put_all [] t = t
  put_all ((k, d) ∷ ds) t = put_all ds (m.put k d t)

  abbrev pub xm_reader_from_rset : Dict Versioned → Reader
  xm_reader_from_rset rset k = as_read (m.get k (put_all rset m.empty))

  -- The read set of `RWSet`, and its write set.
  abbrev pub get_read_sets : Cache → Dict Versioned
  get_read_sets c = m.entries c.inputs

  abbrev pub get_write_sets : Cache → Dict ℕ
  get_write_sets c = o.entries c.outputs
