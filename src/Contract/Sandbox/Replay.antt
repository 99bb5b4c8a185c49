-- ===== src/Contract/Sandbox/Replay.antt =====
-- A contract does the same on its read set as on the store.
use corechain.Prelude.Dict.{Dict, IsKeyed, has, lookup, lookup_of_has_not}
use corechain.Contract.Sandbox.{
  Cache, Program, Read, Reader, TreeMap, Versioned, as_read, failing, fill_inputs, from_inputs,
  from_outputs, get_read_sets, got, judge, missing, new_cache, put_all, reads, returns, run, writes,
  xm_get, xm_put, xm_reader_from_rset,
}
use corechain.Prelude.{
  ==_iff, ==_refl, Bool, Bool-cases, Option, Option-cases, [], ap, arith, false, if◌then◌else◌, inl,
  inr, none, refl, some, subst, sym, true, ℕ, ◌==◌, ◌∙◌, ◌∷◌, ◌≡◌, ◌≢◌,
}

abbrev or_else {ℓ} : {A : Type ℓ} → Option A → Option A → Option A
or_else (some a) b = some a
or_else none b = b

-- The reader answers every key, if only that it is not found.
abbrev pub NoFailure : Reader → Type 0
NoFailure r = (k : ℕ) → r k ≢ failing

module _ (m : TreeMap Versioned) (o : TreeMap ℕ) where
  -- The inputs hold only what the reader gives.
  IsRead : Reader → Cache m o → Type 0
  IsRead r c = (k : ℕ) (d : Versioned) → m.get k c.inputs ≡ some d → r k ≡ got d

  -- The inputs of the first cache are among those of the second.
  Among : Cache m o → Cache m o → Type 0
  Among c c' = (k : ℕ) (d : Versioned) → m.get k c.inputs ≡ some d → m.get k c'.inputs ≡ some d

  -- What a read leaves.
  record Fetched (r : Reader) (k : ℕ) (c c' : Cache m o) : Type 0 where
    is_read : IsRead r c'
    among : Among c c'
    filled : o.get k c.outputs ≡ none → m.get k c.inputs ≡ none → as_read (m.get k c'.inputs) ≡ r k

  fill-Fetched :
      (r : Reader) (k : ℕ) (c : Cache m o) (x : Read)
      → r k ≡ x
      → x ≢ failing
      → IsRead r c
      → m.get k c.inputs ≡ none
      → Fetched r k c ((fill_inputs m o k x c).1)
  unfolding IsRead Among
  fill-Fetched r k c failing e nf s out = absurd (nf refl)
  fill-Fetched r k c missing e nf s out = record {
    is_read = s;
    among = λ j d h. h;
    filled = λ a b. ap as_read out ∙ sym e;
  }
  fill-Fetched r k c (got d) e nf s out = record {
    is_read = λ j d' h. elim (Bool-cases (k == j)) [
      | inl same ↦
          let kj : k ≡ j = (==_iff k j).0 same in
          ap r (sym kj)
          ∙ e
          ∙ ap as_read (
              sym (m.get-put k j d c.inputs ∙ ap (λ b. if b then some d else m.get j c.inputs) same)
              ∙ h)
      | inr ne ↦
          s j d' (
            sym (m.get-put k j d c.inputs ∙ ap (λ b. if b then some d else m.get j c.inputs) ne)
            ∙ h)
    ];
    among = λ j d' h. elim (Bool-cases (k == j)) [
      | inl same ↦ absurd (cc (out, ap (λ z. m.get z c.inputs) ((==_iff k j).0 same), h))
      | inr ne ↦ m.get-put k j d c.inputs ∙ ap (λ b. if b then some d else m.get j c.inputs) ne ∙ h
    ];
    filled = λ a b.
        ap as_read
          (m.get-put k k d c.inputs ∙ ap (λ b. if b then some d else m.get k c.inputs) (==_refl k))
        ∙ sym e;
  }

  get-written :
      (r : Reader) (k v : ℕ) (c : Cache m o)
      → o.get k c.outputs ≡ some v
      → xm_get m o r k c ≡ from_outputs m o (some v) r k c
  unfolding xm_get
  get-written r k v c e = ap (λ x. from_outputs m o x r k c) e

  get-known :
      (r : Reader) (k : ℕ) (d : Versioned) (c : Cache m o)
      → o.get k c.outputs ≡ none
      → m.get k c.inputs ≡ some d
      → xm_get m o r k c ≡ (judge d, c)
  unfolding xm_get
  get-known r k d c e e' =
      ap (λ x. from_outputs m o x r k c) e ∙ ap (λ x. from_inputs m o x r k c) e'

  get-fills :
      (r : Reader) (k : ℕ) (c : Cache m o)
      → o.get k c.outputs ≡ none
      → m.get k c.inputs ≡ none
      → xm_get m o r k c ≡ fill_inputs m o k (r k) c
  unfolding xm_get
  get-fills r k c e e' = ap (λ x. from_outputs m o x r k c) e ∙ ap (λ x. from_inputs m o x r k c) e'

  get-Fetched :
      (r : Reader) (k : ℕ) (c : Cache m o)
      → NoFailure r
      → IsRead r c
      → Fetched r k c ((xm_get m o r k c).1)
  unfolding IsRead Among
  get-Fetched r k c nf s = elim (Option-cases (o.get k c.outputs)) [
    | inr (v, e) ↦
        subst (λ x. Fetched r k c (x.1)) (sym (get-written r k v c e))
          (record { is_read = s; among = λ j d h. h; filled = λ a b. absurd (cc (a, e)) })
    | inl e ↦ elim (Option-cases (m.get k c.inputs)) [
      | inr (d, e') ↦
          subst (λ x. Fetched r k c (x.1)) (sym (get-known r k d c e e'))
            (record { is_read = s; among = λ j d h. h; filled = λ a b. absurd (cc (b, e')) })
      | inl e' ↦
          subst (λ x. Fetched r k c (x.1)) (sym (get-fills r k c e e'))
            (fill-Fetched r k c (r k) refl (nf k) s e')
    ]
  ]

  -- Two readers give the same where they agree on what is not yet known.
  get_same :
      (r r' : Reader) (k : ℕ) (c : Cache m o)
      → (o.get k c.outputs ≡ none → m.get k c.inputs ≡ none → r' k ≡ r k)
      → xm_get m o r' k c ≡ xm_get m o r k c
  get_same r r' k c f = elim (Option-cases (o.get k c.outputs)) [
    | inr (v, e) ↦ get-written r' k v c e ∙ sym (get-written r k v c e)
    | inl e ↦ elim (Option-cases (m.get k c.inputs)) [
      | inr (d, e') ↦ get-known r' k d c e e' ∙ sym (get-known r k d c e e')
      | inl e' ↦
          get-fills r' k c e e'
          ∙ ap (λ x. fill_inputs m o k x c) (f e e')
          ∙ sym (get-fills r k c e e')
    ]
  ]

  -- What a run leaves.
  record Ran (r : Reader) (c c' : Cache m o) : Type 0 where
    is_read : IsRead r c'
    among : Among c c'

  put-Ran :
      (r : Reader) (transient : Bool) (k v : ℕ) (c : Cache m o)
      → NoFailure r
      → IsRead r c
      → Ran r c (xm_put m o r transient k v c)
  unfolding xm_put IsRead Among
  put-Ran r true k v c nf s = record { is_read = s; among = λ j d h. h }
  put-Ran r false k v c nf s =
      let f = get-Fetched r k c nf s in record { is_read = f.is_read; among = f.among }

  run-Ran :
      (r : Reader) (p : Program m o) (c : Cache m o)
      → NoFailure r
      → IsRead r c
      → Ran r c ((run m o r p c).1)
  unfolding run IsRead Among
  run-Ran r (returns n) c nf s = record { is_read = s; among = λ j d h. h }
  run-Ran r (reads k next) c nf s =
      let f = get-Fetched r k c nf s in
      let g = run-Ran r (next ((xm_get m o r k c).0)) ((xm_get m o r k c).1) nf f.is_read in
      record { is_read = g.is_read; among = λ j d h. g.among j d (f.among j d h) }
  run-Ran r (writes transient k v p) c nf s =
      let f = put-Ran r transient k v c nf s in
      let g = run-Ran r p (xm_put m o r transient k v c) nf f.is_read in
      record { is_read = g.is_read; among = λ j d h. g.among j d (f.among j d h) }

  -- The reader of the final inputs gives what the reader gave.
  agrees :
      (r r' : Reader) (k : ℕ) (c c1 last : Cache m o)
      → NoFailure r
      → Fetched r k c c1
      → Ran r c1 last
      → ((j : ℕ) → r' j ≡ as_read (m.get j last.inputs))
      → o.get k c.outputs ≡ none
      → m.get k c.inputs ≡ none
      → r' k ≡ r k
  unfolding IsRead Among
  agrees r r' k c c1 last nf f g same a b = elim (Option-cases (m.get k c1.inputs)) [
    | inr (d, e) ↦ same k ∙ ap as_read (g.among k d e ∙ sym e) ∙ f.filled a b
    | inl e ↦ elim (Option-cases (m.get k last.inputs)) [
      | inl e' ↦ same k ∙ ap as_read (e' ∙ sym e) ∙ f.filled a b
      | inr (d, e') ↦
          let late : got d ≡ missing = sym (g.is_read k d e') ∙ sym (f.filled a b) ∙ ap as_read e in
          absurd (ground (arith, late))
    ]
  ]

  put_same :
      (r r' : Reader) (transient : Bool) (k v : ℕ) (c last : Cache m o)
      → NoFailure r
      → IsRead r c
      → Ran r (xm_put m o r transient k v c) last
      → ((j : ℕ) → r' j ≡ as_read (m.get j last.inputs))
      → xm_put m o r' transient k v c ≡ xm_put m o r transient k v c
  unfolding xm_put Among
  put_same r r' true k v c last nf s g same = refl
  put_same r r' false k v c last nf s g same =
      let f = get-Fetched r k c nf s in
      let g' : Ran r ((xm_get m o r k c).1) last = record {
        is_read = g.is_read;
        among = g.among;
      } in
      ap (λ x. record (x.1) { outputs = o.put k v (x.1).outputs })
        (get_same r r' k c (agrees r r' k c _ last nf f g' same))

  run_same :
      (r r' : Reader) (p : Program m o) (c : Cache m o)
      → NoFailure r
      → IsRead r c
      → ((j : ℕ) → r' j ≡ as_read (m.get j ((run m o r p c).1).inputs))
      → run m o r' p c ≡ run m o r p c
  unfolding run
  run_same r r' (returns n) c nf s same = refl
  run_same r r' (reads k next) c nf s same =
      let f = get-Fetched r k c nf s in
      let g = run-Ran r (next ((xm_get m o r k c).0)) ((xm_get m o r k c).1) nf f.is_read in
      let step = get_same r r' k c (agrees r r' k c _ _ nf f g same) in
      ap (λ x. run m o r' (next (x.0)) (x.1)) step
      ∙ run_same r r' (next ((xm_get m o r k c).0)) ((xm_get m o r k c).1) nf f.is_read same
  run_same r r' (writes transient k v p) c nf s same =
      let f = put-Ran r transient k v c nf s in
      let g = run-Ran r p (xm_put m o r transient k v c) nf f.is_read in
      ap (λ x. run m o r' p x) (put_same r r' transient k v c _ nf s g same)
      ∙ run_same r r' p (xm_put m o r transient k v c) nf f.is_read same

  put_all-get :
      (k : ℕ) (ds : Dict Versioned) (t : m.Tree)
      → IsKeyed ds
      → m.get k (put_all m o ds t) ≡ or_else (lookup k ds) (m.get k t)
  unfolding put_all
  put_all-get k [] t h = refl
  put_all-get k ((j, d) ∷ ds) t (new, h) = elim (Bool-cases (j == k)) [
    | inl e ↦
        let absent = lookup_of_has_not k ds (ap (λ z. has z ds) (sym ((==_iff j k).0 e)) ∙ new) in
        put_all-get k ds (m.put j d t) h
        ∙ ap (λ z. or_else z (m.get k (m.put j d t))) absent
        ∙ m.get-put j k d t
        ∙ ap (λ b. if b then some d else m.get k t) e
        ∙ sym (ap (λ b. or_else (if b then some d else lookup k ds) (m.get k t)) e)
    | inr e ↦
        put_all-get k ds (m.put j d t) h
        ∙ ap (or_else (lookup k ds))
            (m.get-put j k d t ∙ ap (λ b. if b then some d else m.get k t) e)
        ∙ sym (ap (λ b. or_else (if b then some d else lookup k ds) (m.get k t)) e)
  ]

  -- The reader of a read set gives what is in the inputs.
  rset_reads :
      (k : ℕ) (c : Cache m o)
      → xm_reader_from_rset m o (get_read_sets m o c) k ≡ as_read (m.get k c.inputs)
  rset_reads k c = ap as_read (
      put_all-get k (m.entries c.inputs) m.empty (m.entries-IsKeyed c.inputs)
      ∙ ap (λ z. or_else z (m.get k m.empty)) (m.get-entries k c.inputs)
      ∙ whole (m.get k c.inputs))
    where
      whole : (x : Option Versioned) → or_else x (m.get k m.empty) ≡ x
      whole none = m.get-empty k
      whole (some d) = refl

  -- On a store where no read fails but by not finding the key, a contract that runs on the reader of
  -- the read set of its own run does the same again: it returns the same, reads the same, and leaves
  -- the same cache with the same read and write set. The contract may choose its steps by what it has
  -- read.
  pub replay_agrees :
      (r : Reader) (p : Program m o)
      → NoFailure r
      → run m o
          (xm_reader_from_rset m o (get_read_sets m o ((run m o r p (new_cache m o)).1)))
          p
          (new_cache m o)
        ≡ run m o r p (new_cache m o)
  unfolding IsRead
  replay_agrees r p nf =
      run_same r (xm_reader_from_rset m o (get_read_sets m o ((run m o r p (new_cache m o)).1))) p
        (new_cache m o) nf (λ k d h. absurd (cc (m.get-empty k, h)))
        (λ j. rset_reads j ((run m o r p (new_cache m o)).1))
