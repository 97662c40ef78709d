-- ===== src/Agents/Checkpoint/Jsonlstore.antt =====
-- agents/checkpoint/jsonlstore/jsonlstore.go: the store of envelopes in a file with a JSON record on
-- each line. JSON is an argument, with what the store relies on in IsStored; generations are counted
-- without a bound. How the disk answers an append is an argument of it.
pub mod Lines
pub mod Reopen
use go_driftlessaf.Base.{
  ℕ, ◌+◌, String, Bool, true, false, ◌||◌, ◌&&◌, Option, none, some, List, [], ◌∷◌, ◌++◌,
  if◌then◌else◌, ltb, leb, ◌==◌, ℤ, pos, eqb_ℤ, lookup, insert, remove, take, Bytes,
}
use go_driftlessaf.Workqueue.Errors.{Err, other, wrapped}
use go_driftlessaf.Agents.Checkpoint.{Envelope, token_mismatch}

-- A line of the log.
pub record Record : Type 0 where
  pub key : String
  pub generation : ℕ
  pub deleted : Bool
  pub envelope : Option Envelope

pub record Codec : Type 0 where
  pub marshal : Record → Bytes
  pub unmarshal : Bytes → Option Record

-- The live state: the generation counter and the latest record of each key.
pub record Live : Type 0 where
  pub gen : ℕ
  pub index : List (String × Record)

abbrev pub empty_live : Live
empty_live = record { gen = 0; index = [] }

-- Store, with the content of its file; a missing file is an empty one.
pub record Jsonlstore : Type 0 where
  pub live : Live
  pub file : Bytes

abbrev pub newline : ℕ
newline = 10

-- The white space of bytes.TrimSpace, in ASCII.
abbrev is_space : ℕ → Bool
is_space c = (c == 32) || (leb 9 c && leb c 13)

trim_left : Bytes → Bytes
trim_left [] = []
trim_left (c ∷ s) = let rest = trim_left s in if is_space c then rest else c ∷ s

-- A byte before a trimmed end.
cons_trimmed : ℕ → Bytes → Bytes
cons_trimmed c [] = if is_space c then [] else c ∷ []
cons_trimmed c (d ∷ s) = c ∷ d ∷ s

trim_right : Bytes → Bytes
unfolding cons_trimmed
trim_right [] = []
trim_right (c ∷ s) = cons_trimmed c (trim_right s)

unfoldable pub trim_space : Bytes → Bytes
unfolding trim_left trim_right
trim_space s = trim_right (trim_left s)

-- What ReadBytes returns, call after call, behind the bytes of the line that it is in.
unfoldable pub read_lines : Bytes → Bytes → List Bytes
read_lines line [] = line ∷ []
read_lines line (c ∷ s) =
    let next = read_lines [] s in
    let more = read_lines (line ++ c ∷ []) s in if c == newline then line ∷ next else more

-- What replay does with a record.
unfoldable pub apply : Record → Live → Live
apply r l = record {
  gen = if ltb l.gen r.generation then r.generation else l.gen;
  index = if r.deleted then remove r.key l.index else insert r.key r l.index;
}

abbrev apply_read : Option Record → Live → Option Live
apply_read none l = none
apply_read (some r) l = some (apply r l)

-- replay on one line; none is the error of a corrupt record.
replay_line : Codec → Bytes → Live → Option Live
replay_line c [] l = some l
replay_line c (b ∷ s) l = apply_read (c.unmarshal (b ∷ s)) l

and_then : Option Live → (Live → Option Live) → Option Live
and_then none f = none
and_then (some l) f = f l

unfoldable pub replay_lines : Codec → List Bytes → Live → Option Live
unfolding replay_line and_then
replay_lines c [] l = some l
replay_lines c (s ∷ ss) l = and_then (replay_line c (trim_space s) l) (replay_lines c ss)

-- New, on the content of a file that can be read.
unfoldable pub new : Codec → Bytes → Option Live
new c file = replay_lines c (read_lines [] file) empty_live

-- How the disk answers: the line is written and synced; nothing is written; only its first bytes are
-- written; or the sync fails.
pub data Disk : Type 0 where
  stored refused unsynced : Disk
  torn : ℕ → Disk

abbrev pub disk_error : Err
disk_error = wrapped "jsonlstore" (other 0)

unfoldable pub append : Codec → Disk → Record → Bytes → Option Err × Bytes
append c stored r file = (none, file ++ (c.marshal r ++ newline ∷ []))
append c refused r file = (some disk_error, file)
append c unsynced r file = (some disk_error, file ++ (c.marshal r ++ newline ∷ []))
append c (torn n) r file = (some disk_error, file ++ take n (c.marshal r ++ newline ∷ []))

unfoldable pub appended : Option Err × Bytes → Live → Live → Option Err × Jsonlstore
appended (none, file) before after = (none, record { live = after; file = file })
appended (some e, file) before after = (some e, record { live = before; file = file })

abbrev pub saved : String → ℕ → Envelope → Record
saved key gen env = record { key = key; generation = gen; deleted = false; envelope = some env }

unfoldable pub save : Codec → Disk → String → Envelope → Jsonlstore → Option Err × Jsonlstore
unfolding appended
save c disk key env s =
    let r = saved key (s.live.gen + 1) env in
    appended (append c disk r s.file) s.live
      (record { gen = s.live.gen + 1; index = insert key r s.live.index })

unfoldable pub load : String → Jsonlstore → Option (Option Envelope × ℤ)
load key s = elim (lookup key s.live.index) [
  | none ↦ none
  | some r ↦ some (r.envelope, pos r.generation)
]

abbrev pub tombstone : String → ℕ → Record
tombstone key gen = record { key = key; generation = gen; deleted = true; envelope = none }

unfoldable pub delete_found :
    Codec → Disk → String → ℤ → Jsonlstore → Option Record → Option Err × Jsonlstore
unfolding appended
delete_found c disk key token s none = (some (other token_mismatch), s)
delete_found c disk key token s (some r) =
    if eqb_ℤ (pos r.generation) token
    then appended (append c disk (tombstone key r.generation) s.file) s.live
        (record s.live { index = remove key s.live.index })
    else (some (other token_mismatch), s)

unfoldable pub delete : Codec → Disk → String → ℤ → Jsonlstore → Option Err × Jsonlstore
unfolding delete_found
delete c disk key token s = delete_found c disk key token s (lookup key s.live.index)
