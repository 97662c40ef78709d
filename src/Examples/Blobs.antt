-- ===== src/Examples/Blobs.antt =====
-- The blob store of store/blob/mem.go on concrete histories.
use go_driftlessaf.Base.{◌≡◌, refl, false, none, some, List, [], ◌∷◌, arith, lookup, insert}
use go_driftlessaf.Store.Blob.{new, put, admits}
use go_driftlessaf.Store.Blob.Swap.{
  Op, puts, deletes, run_op, run_ops, at_gen, succeeds, overwrites_or_deletes, swap_once,
}
use go_driftlessaf.Store.Blob.Create.{create_only}

abbrev one_write : List Op
one_write = puts "a" "x" create_only ∷ []

-- "a" is written anew, and someone tries the old generation.
abbrev meanwhile : List Op
meanwhile = puts "a" "z" (at_gen 2) ∷ deletes "a" 1 ∷ []

swap_once_example :
    succeeds
      (overwrites_or_deletes "a" 1 none)
      (run_ops meanwhile (run_op (overwrites_or_deletes "a" 1 (some "y")) (run_ops one_write new)))
    ≡ false
unfolding run_ops run_op put admits lookup insert
swap_once_example = swap_once one_write meanwhile "a" 1 (some "y") none (omega arith) refl

abbrev other_name : List Op
other_name = puts "b" "x" create_only ∷ deletes "b" 2 ∷ []
