-- ===== src/Agents/Checkpoint/Memstore.antt =====
-- agents/checkpoint/memstore/memstore.go: the store of envelopes in memory. Generations are counted
-- without a bound.
use go_driftlessaf.Base.{
  ℕ, ◌+◌, ◌≤◌, ◌≡◌, String, Option, none, some, List, [], ◌∷◌, if◌then◌else◌, ℤ, pos, eqb_ℤ, lookup,
  insert, remove, arith, lookup-insert, lookup-remove, eq_refl, Option-cases, ◌≤ℤ◌, ◌<ℤ◌, inl, inr,
}
use go_driftlessaf.Workqueue.Errors.{Err, other}
use go_driftlessaf.Workqueue.Interface.{Reply}
use go_driftlessaf.Agents.Checkpoint.{Envelope, Store, token_mismatch}

pub record Entry : Type 0 where
  pub env : Envelope
  pub gen : ℕ

pub record Memstore : Type 0 where
  pub gen : ℕ
  pub m : List (String × Entry)

abbrev pub new : Memstore
new = record { gen = 0; m = [] }

unfoldable pub save : String → Envelope → Memstore → Memstore
save key env s = record {
  gen = s.gen + 1;
  m = insert key (record { env = env; gen = s.gen + 1 }) s.m;
}

unfoldable pub load : String → Memstore → Option (Envelope × ℤ)
load key s = elim (lookup key s.m) [ none ↦ none | some e ↦ some (e.env, pos e.gen) ]

unfoldable pub delete : String → ℤ → Memstore → Option Err × Memstore
delete key token s = elim (lookup key s.m) [
  | none ↦ (some (other token_mismatch), s)
  | some e ↦
      if eqb_ℤ (pos e.gen) token
      then (none, record s { m = remove key s.m })
      else (some (other token_mismatch), s)
]

abbrev pub memstore : Store
memstore = record {
  State = Memstore;
  save = λ k e s. (none, save k e s);
  load = λ k s. Reply.ok (load k s);
  delete = delete;
}

-- A call on the store by anyone.
pub data Op : Type 0 where
  saves : String → Envelope → Op
  deletes : String → ℤ → Op

unfoldable pub run_op : Op → Memstore → Memstore
run_op (saves k e) s = save k e s
run_op (deletes k token) s = (delete k token s).1

unfoldable pub run_ops : List Op → Memstore → Memstore
run_ops [] s = s
run_ops (op ∷ ops) s = run_ops ops (run_op op s)

-- A token that was handed out, and is not the token of what stands at the key now.
pub record Spent (k : String) (token : ℤ) (s : Memstore) : Type 0 where
  pub old : token ≤ℤ pos s.gen
  pub newer : (e : Entry) → lookup k s.m ≡ some e → token <ℤ pos e.gen

-- Every generation in the store was handed out by its counter.
IsBounded : Memstore → Type 0
IsBounded s = (k : String) (e : Entry) → lookup k s.m ≡ some e → e.gen ≤ s.gen

run_op-IsBounded : (op : Op) (s : Memstore) → IsBounded s → IsBounded (run_op op s)
unfolding IsBounded run_op save delete
run_op-IsBounded (saves j env) s h k e found =
    ground (arith, h k e, lookup-insert j k (record { env = env; gen = s.gen + 1 }) s.m)
run_op-IsBounded (deletes j token) s h k e found = ground (arith, h k e, lookup-remove j k s.m)

run_ops-IsBounded : (ops : List Op) (s : Memstore) → IsBounded s → IsBounded (run_ops ops s)
unfolding run_ops
run_ops-IsBounded [] s h = h
run_ops-IsBounded (op ∷ ops) s h = run_ops-IsBounded ops (run_op op s) (run_op-IsBounded op s h)

new-IsBounded : IsBounded new
unfolding IsBounded lookup
new-IsBounded k e found = cc

run_op-Spent :
    (k : String) (token : ℤ) (op : Op) (s : Memstore)
    → Spent k token s
    → Spent k token (run_op op s)
unfolding run_op save delete
run_op-Spent k token (saves j env) s h = record {
  old = ground (arith, h.old);
  newer = λ e found.
      ground
        (arith, h.old, h.newer e, lookup-insert j k (record { env = env; gen = s.gen + 1 }) s.m);
}
run_op-Spent k token (deletes j other_token) s h = record {
  old = ground (arith, h.old);
  newer = λ e found. ground (arith, h.newer e, lookup-remove j k s.m);
}

pub run_ops-Spent :
    (k : String) (token : ℤ) (ops : List Op) (s : Memstore)
    → Spent k token s
    → Spent k token (run_ops ops s)
unfolding run_ops
run_ops-Spent k token [] s h = h
run_ops-Spent k token (op ∷ ops) s h =
    run_ops-Spent k token ops (run_op op s) (run_op-Spent k token op s h)

-- A delete that succeeds spends its token.
delete-Spent :
    (k : String) (token : ℤ) (s : Memstore)
    → IsBounded s
    → (delete k token s).0 ≡ none
    → Spent k token (delete k token s).1
unfolding delete IsBounded
delete-Spent k token s bounded won = elim (Option-cases (lookup k s.m)) [
  | inl gone ↦ absurd (ground arith)
  | inr (e, found) ↦ record {
    old = ground (arith, bounded k e found);
    newer = λ e' found'. ground (arith, lookup-remove k k s.m, eq_refl k);
  }
]

Spent-delete :
    (k : String) (token : ℤ) (s : Memstore)
    → Spent k token s
    → delete k token s ≡ (some (other token_mismatch), s)
unfolding delete
Spent-delete k token s h = elim (Option-cases (lookup k s.m)) [
  | inl gone ↦ ground arith
  | inr (e, found) ↦ ground (arith, h.newer e found)
]

-- A token claims the envelope at its key at most once: after a delete that succeeded, whatever is
-- saved and deleted in between, at this key or others, every delete by that token fails with
-- ErrTokenMismatch and changes nothing.
pub delete_once :
    (earlier between : List Op) (k : String) (token : ℤ)
    → (delete k token (run_ops earlier new)).0 ≡ none
    → let s = run_ops between (delete k token (run_ops earlier new)).1 in
      delete k token s ≡ (some (other token_mismatch), s)
delete_once earlier between k token won =
    Spent-delete k token (run_ops between (delete k token (run_ops earlier new)).1) (
      run_ops-Spent k token between (delete k token (run_ops earlier new)).1 (
        delete-Spent k token (run_ops earlier new) (run_ops-IsBounded earlier new new-IsBounded)
          won))

pub load-save :
    (k : String) (env : Envelope) (s : Memstore)
    → load k (save k env s) ≡ some (env, pos (s.gen + 1))
unfolding load save
load-save k env s =
    ground (arith, lookup-insert k k (record { env = env; gen = s.gen + 1 }) s.m, eq_refl k)

pub delete-save :
    (k : String) (env : Envelope) (s : Memstore)
    → (delete k (pos (s.gen + 1)) (save k env s)).0 ≡ none
unfolding delete save
delete-save k env s =
    ground (arith, lookup-insert k k (record { env = env; gen = s.gen + 1 }) s.m, eq_refl k)

pub load-delete :
    (k : String) (token : ℤ) (s : Memstore)
    → (delete k token s).0 ≡ none
    → load k (delete k token s).1 ≡ none
unfolding delete load
load-delete k token s won = ground (arith, lookup-remove k k s.m, eq_refl k)
