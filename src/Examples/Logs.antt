-- ===== src/Examples/Logs.antt =====
-- The store of agents/checkpoint/jsonlstore on a concrete log.
use go_driftlessaf.Base.{lookup, insert}
use go_driftlessaf.Base.{
  ◌+◌, ◌-◌, ◌≡◌, refl, String, true, false, Option, none, some, List, [], ◌∷◌, if◌then◌else◌, ◌==◌,
  pos, Bytes, All,
}
use go_driftlessaf.Agents.Checkpoint.{Envelope, Suspension, new_ask_a_friend_suspension}
use go_driftlessaf.Agents.Checkpoint.Jsonlstore.{
  Record, Codec, new, saved, tombstone, trim_space, save, delete, append, appended,
}
use go_driftlessaf.Agents.Checkpoint.Jsonlstore.Lines.{IsStored}
use go_driftlessaf.Agents.Checkpoint.Jsonlstore.Reopen.{
  Op, saves, deletes, run_ops, all_records, records_of, run_op, no_store, reopen_live,
}

abbrev no_question : String → Option String
no_question s = none

abbrev suspension : Suspension
suspension =
    new_ask_a_friend_suspension no_question "anthropic" "m" "d" (pos 2) (pos 10)
      (record { id = "toolu_1"; name = "ask_a_friend"; input_json = "{}" }) "[]" "" ""

abbrev parked : Envelope
parked = suspension.envelope

-- In place of JSON: the generation as a digit and a mark for a tombstone, between braces, for the
-- records of one key and one envelope.
abbrev marshal : Record → Bytes
marshal r = 123 ∷ (48 + r.generation) ∷ (if r.deleted then 49 else 48) ∷ 125 ∷ []

abbrev unmarshal : Bytes → Option Record
unmarshal (brace ∷ g ∷ d ∷ rest) =
    some (if d == 49 then tombstone "a" (g - 48) else saved "a" (g - 48) parked)
unmarshal _ = none

abbrev digits_codec : Codec
digits_codec = record { marshal = marshal; unmarshal = unmarshal }

-- Two saves, between them one that the disk refuses, and a delete by the last token.
abbrev calls : List Op
calls =
    saves true "a" parked
    ∷ saves false "a" parked
    ∷ saves true "a" parked
    ∷ deletes true "a" (pos 2)
    ∷ []

first-IsStored : IsStored digits_codec (saved "a" 1 parked)
unfolding trim_space
first-IsStored = record {
  one_line = (refl, (refl, (refl, (refl, tt))));
  trimmed = refl;
  first = 123;
  others = 49 ∷ 48 ∷ 125 ∷ [];
  starts = refl;
  decoded = refl;
}

second-IsStored : IsStored digits_codec (saved "a" 2 parked)
unfolding trim_space
second-IsStored = record {
  one_line = (refl, (refl, (refl, (refl, tt))));
  trimmed = refl;
  first = 123;
  others = 50 ∷ 48 ∷ 125 ∷ [];
  starts = refl;
  decoded = refl;
}

deleted-IsStored : IsStored digits_codec (tombstone "a" 2)
unfolding trim_space
deleted-IsStored = record {
  one_line = (refl, (refl, (refl, (refl, tt))));
  trimmed = refl;
  first = 123;
  others = 50 ∷ 49 ∷ 125 ∷ [];
  starts = refl;
  decoded = refl;
}

all-IsStored : All (IsStored digits_codec) (all_records digits_codec calls no_store)
unfolding all_records records_of run_ops run_op save delete append appended lookup insert
all-IsStored = (first-IsStored, (second-IsStored, (deleted-IsStored, tt)))

reopen_live_example :
    new digits_codec (run_ops digits_codec calls no_store).file
    ≡ some (run_ops digits_codec calls no_store).live
reopen_live_example = reopen_live digits_codec calls all-IsStored
