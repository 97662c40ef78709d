-- ===== src/Store/Blob.antt =====
-- store/blob: objects with generations (blob.go), and the store in memory (mem.go). The mutex
-- serialises the calls; bytes are a text, and generations are counted without a bound.
pub mod Swap
pub mod Create
pub mod Listing
use go_driftlessaf.Base.{
  ℕ, zero, ◌+◌, String, Bool, true, false, ◌&&◌, ◌||◌, not, Option, none, some, List, [], ◌∷◌, map,
  if◌then◌else◌, ltb, leb, length, take, drop, keep, lookup, insert, remove, sort, ◌==◌, str_eq, ℤ,
  pos, pos_part, leb_ℤ,
}

abbrev pub Gen : Type 0
Gen = ℕ

pub record Cond : Type 0 where
  pub does_not_exist : Bool
  pub generation_match : Gen

pub data BlobError : Type 0 where
  not_exist precondition_failed : BlobError

pub data Result (A : Type 0) : Type 0 where
  ok : A → Result A
  err : BlobError → Result A

pub record MemObject : Type 0 where
  pub data_bytes : String
  pub gen : Gen

pub record Mem : Type 0 where
  pub next_gen : Gen
  pub objects : List (String × MemObject)

-- NewMem.
abbrev pub new : Mem
new = record { next_gen = 1; objects = [] }

-- The tests of Put on the object that is there.
unfoldable pub admits : Cond → Option MemObject → Bool
admits cond none = if cond.does_not_exist then true else cond.generation_match == 0
admits cond (some o) =
    if cond.does_not_exist
    then false
    else if cond.generation_match == 0
    then true
    else o.gen == cond.generation_match

write : String → String → Mem → Result Gen × Mem
write name bytes m = (
  ok m.next_gen,
  record {
    next_gen = m.next_gen + 1;
    objects = insert name (record { data_bytes = bytes; gen = m.next_gen }) m.objects;
  },
)

unfoldable pub put : String → String → Cond → Mem → Result Gen × Mem
unfolding admits write
put name bytes cond m =
    if admits cond (lookup name m.objects) then write name bytes m else (err precondition_failed, m)

unfoldable pub get : String → Mem → Option (String × Gen)
get name m = elim (lookup name m.objects) [ none ↦ none | some o ↦ some (o.data_bytes, o.gen) ]

-- Delete; `none` is the nil error.
unfoldable pub delete : String → Gen → Mem → Option BlobError × Mem
delete name if_gen m = elim (lookup name m.objects) [
  | none ↦ (some (if if_gen == 0 then not_exist else precondition_failed), m)
  | some o ↦
      if not (if_gen == 0) && not (o.gen == if_gen)
      then (some precondition_failed, m)
      else (none, record m { objects = remove name m.objects })
]
