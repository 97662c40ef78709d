-- ===== src/Store/Blob/Swap.antt =====
-- The generations of store/blob/mem.go as tokens of a compare-and-swap.
use go_driftlessaf.Base.{
  ◌≡◌, ◌<◌, String, Bool, true, false, Option, none, some, List, [], ◌∷◌, arith, lookup,
  lookup-insert, lookup-remove, eq_refl, Option-cases, inl, inr,
}
use go_driftlessaf.Store.Blob.{Gen, Cond, ok, err, MemObject, Mem, new, admits, put, delete}

pub data Op : Type 0 where
  puts : String → String → Cond → Op
  deletes : String → Gen → Op

unfoldable pub run_op : Op → Mem → Mem
run_op (puts name bytes cond) m = (put name bytes cond m).1
run_op (deletes name if_gen) m = (delete name if_gen m).1

unfoldable pub run_ops : List Op → Mem → Mem
run_ops [] m = m
run_ops (op ∷ ops) m = run_ops ops (run_op op m)

-- Generations are positive and were handed out.
IsBounded : Mem → Type 0
IsBounded m =
    (0 < m.next_gen)
    × ((k : String) (o : MemObject)
        → lookup k m.objects ≡ some o
        → (0 < o.gen) × (o.gen < m.next_gen))

run_op-IsBounded : (op : Op) (m : Mem) → IsBounded m → IsBounded (run_op op m)
unfolding IsBounded run_op put admits delete
run_op-IsBounded (puts name bytes cond) m h = (
  ground arith,
  λ k o found. ground (
    arith,
    h.1 k o,
    lookup-insert name k (record { data_bytes = bytes; gen = m.next_gen }) m.objects,
  ),
)
run_op-IsBounded (deletes name if_gen) m h =
    (ground arith, λ k o found. ground (arith, h.1 k o, lookup-remove name k m.objects))

run_ops-IsBounded : (ops : List Op) (m : Mem) → IsBounded m → IsBounded (run_ops ops m)
unfolding run_ops
run_ops-IsBounded [] m h = h
run_ops-IsBounded (op ∷ ops) m h = run_ops-IsBounded ops (run_op op m) (run_op-IsBounded op m h)

new-IsBounded : IsBounded new
unfolding IsBounded lookup
new-IsBounded = (omega arith, λ k o found. cc)

-- Nothing at the name carries the generation any more, nor will.
record Passed (name : String) (g : Gen) (m : Mem) : Type 0 where
  old : g < m.next_gen
  newer : (o : MemObject) → lookup name m.objects ≡ some o → g < o.gen

run_op-Passed :
    (name : String) (g : Gen) (op : Op) (m : Mem) → Passed name g m → Passed name g (run_op op m)
unfolding run_op put admits delete
run_op-Passed name g (puts k bytes cond) m h = record {
  old = ground (arith, h.old);
  newer = λ o found. ground (
    arith,
    h.old,
    h.newer o,
    lookup-insert k name (record { data_bytes = bytes; gen = m.next_gen }) m.objects,
  );
}
run_op-Passed name g (deletes k if_gen) m h = record {
  old = ground (arith, h.old);
  newer = λ o found. ground (arith, h.newer o, lookup-remove k name m.objects);
}

run_ops-Passed :
    (name : String) (g : Gen) (ops : List Op) (m : Mem)
    → Passed name g m
    → Passed name g (run_ops ops m)
unfolding run_ops
run_ops-Passed name g [] m h = h
run_ops-Passed name g (op ∷ ops) m h =
    run_ops-Passed name g ops (run_op op m) (run_op-Passed name g op m h)

-- A write on the condition that the generation is g.
abbrev pub at_gen : Gen → Cond
at_gen g = record { does_not_exist = false; generation_match = g }

-- The two uses of a generation: to overwrite the object that carries it, or to delete it.
abbrev pub overwrites_or_deletes : String → Gen → Option String → Op
overwrites_or_deletes name g (some bytes) = puts name bytes (at_gen g)
overwrites_or_deletes name g none = deletes name g

abbrev pub succeeds : Op → Mem → Bool
succeeds (puts name bytes cond) m = elim (put name bytes cond m).0 [ ok g ↦ true | err e ↦ false ]
succeeds (deletes name if_gen) m = elim (delete name if_gen m).0 [ none ↦ true | some e ↦ false ]

-- A use of a generation that succeeds finds it at the name, so it was handed out.
used_below :
    (name : String) (g : Gen) (use_it : Option String) (m : Mem)
    → 0 < g
    → IsBounded m
    → succeeds (overwrites_or_deletes name g use_it) m ≡ true
    → g < m.next_gen
unfolding put admits delete IsBounded
used_below name g (some bytes) m some_gen h won = elim (Option-cases (lookup name m.objects)) [
  | inl gone ↦ absurd (ground arith)
  | inr (o, found) ↦ ground (arith, h.1 name o found)
]
used_below name g none m some_gen h won = elim (Option-cases (lookup name m.objects)) [
  | inl gone ↦ absurd (ground arith)
  | inr (o, found) ↦ ground (arith, h.1 name o found)
]

swap-Passed :
    (name : String) (g : Gen) (use_it : Option String) (m : Mem)
    → g < m.next_gen
    → succeeds (overwrites_or_deletes name g use_it) m ≡ true
    → Passed name g (run_op (overwrites_or_deletes name g use_it) m)
unfolding run_op put delete
swap-Passed name g (some bytes) m below won = record {
  old = ground arith;
  newer = λ o found. ground (
    arith,
    eq_refl name,
    lookup-insert name name (record { data_bytes = bytes; gen = m.next_gen }) m.objects,
  );
}
swap-Passed name g none m below won = record {
  old = ground arith;
  newer = λ o found. ground (arith, eq_refl name, lookup-remove name name m.objects);
}

Passed-fails :
    (name : String) (g : Gen) (use_it : Option String) (m : Mem)
    → 0 < g
    → Passed name g m
    → succeeds (overwrites_or_deletes name g use_it) m ≡ false
unfolding put admits delete
Passed-fails name g (some bytes) m some_gen h = elim (Option-cases (lookup name m.objects)) [
  | inl gone ↦ ground arith
  | inr (o, found) ↦ ground (arith, h.newer o found)
]
Passed-fails name g none m some_gen h = elim (Option-cases (lookup name m.objects)) [
  | inl gone ↦ ground arith
  | inr (o, found) ↦ ground (arith, h.newer o found)
]

-- A generation serves at most once: after an overwrite or a delete by a generation has succeeded,
-- whatever is written and deleted in between, no overwrite and no delete of that name by that
-- generation succeeds again.
pub swap_once :
    (earlier between : List Op) (name : String) (g : Gen) (first second : Option String)
    → 0 < g
    → succeeds (overwrites_or_deletes name g first) (run_ops earlier new) ≡ true
    → succeeds
        (overwrites_or_deletes name g second)
        (run_ops between (run_op (overwrites_or_deletes name g first) (run_ops earlier new)))
      ≡ false
swap_once earlier between name g first second some_gen won =
    let m = run_ops earlier new in
    let bounded = run_ops-IsBounded earlier new new-IsBounded in
    let m' = run_op (overwrites_or_deletes name g first) m in
    Passed-fails name g second (run_ops between m') some_gen (
      run_ops-Passed name g between m'
        (swap-Passed name g first m (used_below name g first m some_gen bounded won) won))
