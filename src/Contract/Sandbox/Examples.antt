-- ===== src/Contract/Sandbox/Examples.antt =====
-- A contract that reads a key, and writes another one with what it read.
use corechain.Contract.Sandbox.{
  Answer, Program, Reader, TreeMap, Versioned, found, get_read_sets, get_write_sets, got, missing,
  new_cache, reads, returns, run, writes, xm_get, xm_put, xm_reader_from_rset,
}
use corechain.Contract.Sandbox.Replay.{NoFailure, replay_agrees}
use corechain.Prelude.{[], arith, false, if◌then◌else◌, none, refl, some, ℕ, ◌+◌, ◌==◌, ◌∷◌, ◌≡◌}
use corechain.Contract.Sandbox.Select.{
  Pairs, merge_at, multi_iterator, prefer, select_looks_up, select_pairs, strip_del, visible,
}
use corechain.Prelude.Dict.{Dict, IsKeyed, insert, insert-IsKeyed, lookup, lookup-insert}

-- Lists of pairs with distinct keys do what is relied on.
abbrev dicts : (V : Type 0) → TreeMap V
dicts V = record {
  Tree = (d : Dict V) × IsKeyed d;
  empty = ([], tt);
  get = λ k t. lookup k (t.0);
  put = λ k v t. (insert k v (t.0), insert-IsKeyed k v (t.0) (t.1));
  entries = λ t. t.0;
  get-empty = λ k. refl;
  get-put = λ k j v t. lookup-insert k j v (t.0);
  get-entries = λ k t. refl;
  entries-IsKeyed = λ t. t.1;
}

-- Key 1 has the value 7, key 2 was never written, and every other key is not found.
abbrev store : Reader
store k =
    if k == 1
    then got (record { ref_txid = some 100; ref_offset = 0; value = 7 })
    else (if k == 2 then got (record { ref_txid = none; ref_offset = 0; value = 0 }) else missing)

store-NoFailure : NoFailure store
store-NoFailure k h = ground arith

abbrev seen : Answer → ℕ
seen (found v) = v
seen _ = 99

abbrev program : Program (dicts Versioned) (dicts ℕ)
program =
    reads 1 (λ a. writes false 2 (seen a) (reads 2 (λ b. reads 3 (λ c. returns (seen b + seen c)))))

program_returns :
    (run (dicts Versioned) (dicts ℕ) store program (new_cache (dicts Versioned) (dicts ℕ))).0 ≡ 106
unfolding run xm_get xm_put
program_returns = refl

program_writes :
    get_write_sets
      (dicts Versioned)
      (dicts ℕ)
      ((run (dicts Versioned) (dicts ℕ) store program (new_cache (dicts Versioned) (dicts ℕ))).1)
    ≡ (2, 7) ∷ []
unfolding run xm_get xm_put
program_writes = refl

replay_agrees_example :
    run
      (dicts Versioned)
      (dicts ℕ)
      (xm_reader_from_rset (dicts Versioned) (dicts ℕ) (
        get_read_sets (dicts Versioned) (dicts ℕ) (
          (run
            (dicts Versioned)
            (dicts ℕ)
            store
            program
            (new_cache (dicts Versioned) (dicts ℕ))).1)))
      program
      (new_cache (dicts Versioned) (dicts ℕ))
    ≡ run (dicts Versioned) (dicts ℕ) store program (new_cache (dicts Versioned) (dicts ℕ))
replay_agrees_example = replay_agrees (dicts Versioned) (dicts ℕ) store program store-NoFailure

abbrev datum : ℕ → Versioned
datum v = record { ref_txid = some 100; ref_offset = 0; value = v }

-- Key 2 was written, key 3 deleted, key 5 read; the store has the keys 1, 2 and 3.
abbrev written : Pairs
written = (2, datum 8) ∷ (3, datum 0) ∷ []

abbrev known : Pairs
known = (5, datum 6) ∷ []

abbrev stored : Pairs
stored = (1, datum 4) ∷ (2, datum 4) ∷ (3, datum 4) ∷ []

-- The deleted key 3 is listed, with the mark for its value.
scan_lists :
    select_pairs written known stored
    ≡ (1, datum 4) ∷ (2, datum 8) ∷ (3, datum 0) ∷ (5, datum 6) ∷ []
unfolding select_pairs multi_iterator merge_at strip_del
scan_lists = refl

select_looks_up_example :
    lookup 3 (select_pairs written known stored)
    ≡ prefer (lookup 3 written) (prefer (visible (lookup 3 known)) (visible (lookup 3 stored)))
select_looks_up_example =
    select_looks_up written known stored 3 ((omega arith, tt), (tt, tt)) (tt, tt)
      ((omega arith, (omega arith, tt)), ((omega arith, tt), (tt, tt)))
