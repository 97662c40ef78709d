-- ===== src/Store/Blob/Create.antt =====
-- Create-only writes of store/blob/mem.go.
use go_driftlessaf.Base.{
  ◌≡◌, refl, String, Bool, true, false, List, [], ◌∷◌, arith, if◌then◌else◌, is_some, lookup,
  lookup-insert, lookup-remove, eq_refl, str_eq,
}
use go_driftlessaf.Store.Blob.{Cond, precondition_failed, err, Mem, admits, put, delete}
use go_driftlessaf.Store.Blob.Swap.{Op, puts, deletes, run_op, run_ops, succeeds}

abbrev pub create_only : Cond
create_only = record { does_not_exist = true; generation_match = 0 }

-- No call deletes the name.
abbrev pub spares : String → List Op → Bool
spares name [] = true
spares name (puts k bytes cond ∷ ops) = spares name ops
spares name (deletes k if_gen ∷ ops) = if str_eq k name then false else spares name ops

there : String → Mem → Bool
there name m = is_some (lookup name m.objects)

put-there :
    (name bytes : String) (cond : Cond) (m : Mem)
    → succeeds (puts name bytes cond) m ≡ true
    → there name (run_op (puts name bytes cond) m) ≡ true
unfolding there run_op put admits
put-there name bytes cond m won = ground (
  arith,
  eq_refl name,
  lookup-insert name name (record { data_bytes = bytes; gen = m.next_gen }) m.objects,
)

run_op-there :
    (name : String) (op : Op) (m : Mem)
    → spares name (op ∷ []) ≡ true
    → there name m ≡ true
    → there name (run_op op m) ≡ true
unfolding there run_op put admits delete
run_op-there name (puts k bytes cond) m spared h =
    ground (arith, lookup-insert k name (record { data_bytes = bytes; gen = m.next_gen }) m.objects)
run_op-there name (deletes k if_gen) m spared h = ground (arith, lookup-remove k name m.objects)

spares_split :
    (name : String) (op : Op) (ops : List Op)
    → spares name (op ∷ ops) ≡ true
    → (spares name (op ∷ []) ≡ true) × (spares name ops ≡ true)
spares_split name (puts k bytes cond) ops h = (refl, h)
spares_split name (deletes k if_gen) ops h = ground arith

run_ops-there :
    (name : String) (ops : List Op) (m : Mem)
    → spares name ops ≡ true
    → there name m ≡ true
    → there name (run_ops ops m) ≡ true
unfolding run_ops
run_ops-there name [] m spared h = h
run_ops-there name (op ∷ ops) m spared h =
    let (now, later) = spares_split name op ops spared in
    run_ops-there name ops (run_op op m) later (run_op-there name op m now h)

create-there :
    (name bytes : String) (m : Mem)
    → there name m ≡ true
    → put name bytes create_only m ≡ (err precondition_failed, m)
unfolding there put admits
create-there name bytes m h = ground arith

-- Of concurrent create-only writes of a name, at most one lands: after a write has succeeded, and as
-- long as nobody deletes the name, every create-only write fails and changes nothing.
pub create_once :
    (between : List Op) (name bytes bytes' : String) (cond : Cond) (m : Mem)
    → succeeds (puts name bytes cond) m ≡ true
    → spares name between ≡ true
    → let m' = run_ops between (run_op (puts name bytes cond) m) in
      put name bytes' create_only m' ≡ (err precondition_failed, m')
create_once between name bytes bytes' cond m won spared =
    create-there name bytes' (run_ops between (run_op (puts name bytes cond) m)) (
      run_ops-there name between (run_op (puts name bytes cond) m) spared
        (put-there name bytes cond m won))
