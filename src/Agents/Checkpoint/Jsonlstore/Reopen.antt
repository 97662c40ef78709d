-- ===== src/Agents/Checkpoint/Jsonlstore/Reopen.antt =====
-- agents/checkpoint/jsonlstore/jsonlstore.go: what New rebuilds from the file of a store.
use mathlib.Core.List.{append_assoc, append-nil}
use go_driftlessaf.Base.{
  ℕ, ◌+◌, ◌≤◌, ◌≡◌, refl, ◌∙◌, sym, ap, String, Bool, true, false, Option, none, some, List, [],
  ◌∷◌, ◌++◌, if◌then◌else◌, ltb, ℤ, pos, eqb_ℤ, lookup, insert, remove, lookup-insert,
  lookup-remove, All, Bool-cases, inl, inr, arith,
}
use go_driftlessaf.Agents.Checkpoint.Jsonlstore.{
  Record, Codec, Live, empty_live, Jsonlstore, read_lines, apply, replay_lines, new, Disk, stored,
  refused, append, appended, saved, save, tombstone, delete, delete_found,
}
use go_driftlessaf.Agents.Checkpoint.{Envelope}
use go_driftlessaf.Agents.Checkpoint.Jsonlstore.Lines.{
  IsStored, render, apply_all, render-append, replay_render, apply_all-append,
}

-- A call on the store; the flag says whether the disk stores the line, or refuses it.
pub data Op : Type 0 where
  saves : Bool → String → Envelope → Op
  deletes : Bool → String → ℤ → Op

abbrev answer : Bool → Disk
answer true = stored
answer false = refused

unfoldable pub run_op : Codec → Op → Jsonlstore → Jsonlstore
run_op c (saves b k e) s = (save c (answer b) k e s).1
run_op c (deletes b k t) s = (delete c (answer b) k t s).1

unfoldable pub run_ops : Codec → List Op → Jsonlstore → Jsonlstore
run_ops c [] s = s
run_ops c (op ∷ ops) s = run_ops c ops (run_op c op s)

-- The records that a call appends.
record_found : String → ℤ → Option Record → List Record
record_found k t none = []
record_found k t (some r) = if eqb_ℤ (pos r.generation) t then tombstone k r.generation ∷ [] else []

unfoldable pub records_of : Op → Jsonlstore → List Record
unfolding record_found
records_of (saves true k e) s = saved k (s.live.gen + 1) e ∷ []
records_of (saves false k e) s = []
records_of (deletes true k t) s = record_found k t (lookup k s.live.index)
records_of (deletes false k t) s = []

unfoldable pub all_records : Codec → List Op → Jsonlstore → List Record
all_records c [] s = []
all_records c (op ∷ ops) s = records_of op s ++ all_records c ops (run_op c op s)

-- Every live record has a generation that the counter has reached, and its key.
IsBounded : Live → Type 0
IsBounded l = (k : String) (r : Record) → lookup k l.index ≡ some r → r.generation ≤ l.gen

-- Appending the records made this of a store.
record Effect (c : Codec) (s : Jsonlstore) (rs : List Record) (after : Jsonlstore) : Type 0 where
  file : after.file ≡ s.file ++ render c rs
  live : after.live ≡ apply_all rs s.live
  bounded : IsBounded after.live

saved_live :
    (k : String) (e : Envelope) (l : Live)
    → record { gen = l.gen + 1; index = insert k (saved k (l.gen + 1) e) l.index }
      ≡ apply (saved k (l.gen + 1) e) l
unfolding apply
saved_live k e l =
    let reached : (if ltb l.gen (l.gen + 1) then l.gen + 1 else l.gen) ≡ l.gen + 1 = ground arith in
    rw reached

deleted_live :
    (k : String) (gen : ℕ) (l : Live)
    → gen ≤ l.gen
    → record l { index = remove k l.index } ≡ apply (tombstone k gen) l
unfolding apply
deleted_live k gen l h =
    let same : (if ltb l.gen gen then gen else l.gen) ≡ l.gen = ground arith in rw same

unchanged : (c : Codec) (s : Jsonlstore) → IsBounded s.live → Effect c s [] s
unfolding render apply_all
unchanged c s h = record { file = sym (append-nil s.file); live = refl; bounded = h }

save-Effect :
    (c : Codec) (b : Bool) (k : String) (e : Envelope) (s : Jsonlstore)
    → IsBounded s.live
    → Effect c s (records_of (saves b k e) s) (save c (answer b) k e s).1
unfolding records_of save append appended render apply_all IsBounded
save-Effect c true k e s h = record {
  file = refl;
  live = saved_live k e s.live;
  bounded = λ j r found.
      ground (arith, h j r, lookup-insert k j (saved k (s.live.gen + 1) e) s.live.index);
}
save-Effect c false k e s h = unchanged c s h

abbrev found_records : Bool → String → ℤ → Option Record → List Record
found_records true k t o = record_found k t o
found_records false k t o = []

delete_stored :
    (c : Codec) (b : Bool) (k : String) (t : ℤ) (s : Jsonlstore) (r : Record)
    → IsBounded s.live
    → r.generation ≤ s.live.gen
    → Effect c s (found_records b k t (some r)) (delete_found c (answer b) k t s (some r)).1
unfolding record_found delete_found append appended render apply_all IsBounded
delete_stored c true k t s r h low = elim (Bool-cases (eqb_ℤ (pos r.generation) t)) [
  | inr other ↦ rw other (unchanged c s h)
  | inl same ↦ rw same (record {
    file = refl;
    live = deleted_live k r.generation s.live low;
    bounded = λ j q found. ground (arith, h j q, lookup-remove k j s.live.index);
  })
]
delete_stored c false k t s r h low = elim (Bool-cases (eqb_ℤ (pos r.generation) t)) [
  | inr other ↦ rw other (unchanged c s h)
  | inl same ↦ rw same (unchanged c s h)
]

delete-Effect :
    (c : Codec) (b : Bool) (k : String) (t : ℤ) (s : Jsonlstore)
    → IsBounded s.live
    → Effect c s (found_records b k t (lookup k s.live.index)) (delete c (answer b) k t s).1
unfolding delete delete_found record_found IsBounded
delete-Effect c b k t s h = go (lookup k s.live.index) (λ r found. low r found)
  where
    no_record : (b : Bool) → Effect c s (found_records b k t none) s
    no_record true = unchanged c s h
    no_record false = unchanged c s h

    low : (r : Record) → lookup k s.live.index ≡ some r → r.generation ≤ s.live.gen
    low r found = h k r found

    go :
        (o : Option Record)
        → ((r : Record) → o ≡ some r → r.generation ≤ s.live.gen)
        → Effect c s (found_records b k t o) (delete_found c (answer b) k t s o).1
    go none reached = no_record b
    go (some r) reached = delete_stored c b k t s r h (reached r refl)

run_op-Effect :
    (c : Codec) (op : Op) (s : Jsonlstore)
    → IsBounded s.live
    → Effect c s (records_of op s) (run_op c op s)
unfolding run_op records_of
run_op-Effect c (saves b k e) s h = save-Effect c b k e s h
run_op-Effect c (deletes true k t) s h = delete-Effect c true k t s h
run_op-Effect c (deletes false k t) s h = delete-Effect c false k t s h

run_ops-Effect :
    (c : Codec) (ops : List Op) (s : Jsonlstore)
    → IsBounded s.live
    → Effect c s (all_records c ops s) (run_ops c ops s)
unfolding run_ops all_records
run_ops-Effect c [] s h = unchanged c s h
run_ops-Effect c (op ∷ ops) s h =
    let first = run_op-Effect c op s h in
    let rest = run_ops-Effect c ops (run_op c op s) first.bounded in
    let rs = records_of op s in
    let qs = all_records c ops (run_op c op s) in
    record {
      file =
          rest.file
          ∙ ap (λ f. f ++ render c qs) first.file
          ∙ append_assoc s.file (render c rs) (render c qs)
          ∙ ap (λ t. s.file ++ t) (sym (render-append c rs qs));
      live = rest.live ∙ ap (apply_all qs) first.live ∙ sym (apply_all-append rs qs s.live);
      bounded = rest.bounded;
    }

abbrev pub no_store : Jsonlstore
no_store = record { live = empty_live; file = [] }

-- A store that is opened again has the state that it had: after any calls, of which the disk may
-- refuse some without writing, New rebuilds from the file exactly the live records and the generation
-- counter, provided that JSON reads back the records that were appended.
pub reopen_live :
    (c : Codec) (ops : List Op)
    → All (IsStored c) (all_records c ops no_store)
    → new c (run_ops c ops no_store).file ≡ some (run_ops c ops no_store).live
unfolding new IsBounded lookup
reopen_live c ops stored_all =
    let bounded : IsBounded empty_live = nothing_live in
    let e = run_ops-Effect c ops no_store bounded in
    let rs = all_records c ops no_store in
    ap (λ f. replay_lines c (read_lines [] f) empty_live) e.file
    ∙ replay_render c rs empty_live stored_all
    ∙ ap some (sym e.live)
  where
    nothing_live : IsBounded empty_live
    nothing_live k r found = cc
