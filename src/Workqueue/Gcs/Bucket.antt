-- ===== src/Workqueue/Gcs/Bucket.antt =====
-- What workqueue/gcs/gcs.go asks of its surroundings: the calls on a bucket of
-- cloud.google.com/go/storage, the clock, random numbers and waiting. A handler is a program over
-- these requests. Nothing is assumed here of the replies, so that what other processes do to the
-- bucket between two requests is left open.
use go_driftlessaf.Base.{ℕ, String, Bool, true, false, Option, none, some, Bytes, ◌==◌, ◌||◌}
use go_driftlessaf.Clock.{Instant, Duration}

-- The name of an object: its prefix and the key behind it.
pub data ObjectName : Type 0 where
  queued in_progress dead_letter : String → ObjectName

-- The metadata of an object: the value at each of the keys that the package uses, if it is there.
pub record Metadata : Type 0 where
  pub expiration : Option Bytes
  pub attempts : Option Bytes
  pub priority : Option Bytes
  pub not_before : Option Bytes
  pub not_before_floor : Option Bytes
  pub failed_time : Option Bytes
  pub last_attempted : Option Bytes
  pub owner : Option Bytes

abbrev pub no_metadata : Metadata
no_metadata = record {
  expiration = none;
  attempts = none;
  priority = none;
  not_before = none;
  not_before_floor = none;
  failed_time = none;
  last_attempted = none;
  owner = none;
}

-- storage.ObjectAttrs
pub record Attrs : Type 0 where
  pub name : ObjectName
  pub created : Instant
  pub generation : ℕ
  pub metageneration : ℕ
  pub metadata : Metadata

-- storage.Conditions
pub record Conditions : Type 0 where
  pub does_not_exist : Bool
  pub generation_match : Option ℕ
  pub metageneration_match : Option ℕ

abbrev pub no_conditions : Conditions
no_conditions = record {
  does_not_exist = false;
  generation_match = none;
  metageneration_match = none;
}

abbrev pub if_absent : Conditions
if_absent = record no_conditions { does_not_exist = true }

abbrev pub if_generation : ℕ → Conditions
if_generation g = record no_conditions { generation_match = some g }

-- An error of the storage client: ErrObjectNotExist, a googleapi.Error with its code, the error of a
-- canceled context, or another.
pub data Fault : Type 0 where
  not_exist canceled : Fault
  api other_fault : ℕ → Fault

pub data Answer (A : Type 0) : Type 0 where
  ok : A → Answer A
  failed : Fault → Answer A

abbrev pub fault_of : {A : Type 0} → Answer A → Option Fault
fault_of (ok a) = none
fault_of (failed e) = some e

-- What a storage.Writer answers: Write fails, or Close ends the upload.
pub data Written : Type 0 where
  broken : Fault → Written
  closed : Answer (Unit {0}) → Written

-- In a copy the source comes first, with the generation that it is pinned to. `wait` is a select of
-- the context and a timer, and `done` a look at the context: both answer whether it is canceled.
pub data Request : Type 0 where
  read : ObjectName → Request
  write update : ObjectName → Conditions → Metadata → Request
  copy : ObjectName → Option ℕ → ObjectName → Conditions → Metadata → Request
  delete : ObjectName → Conditions → Request
  clock done : Request
  draw : ℕ → Request
  wait : Duration → Request

abbrev pub Reply : Request → Type 0
Reply (read n) = Answer Attrs
Reply (write n c m) = Written
Reply (update n c m) = Answer Attrs
Reply (copy n g t c m) = Answer Attrs
Reply (delete n c) = Answer (Unit {0})
Reply clock = Instant
Reply done = Bool
Reply (draw n) = ℕ
Reply (wait d) = Bool

pub data Program (A : Type 0) : Type 0 where
  ret : A → Program A
  call : (r : Request) → (Reply r → Program A) → Program A

infixl 5 ◌>>=◌
unfoldable pub ◌>>=◌ : {A B : Type 0} → Program A → (A → Program B) → Program B
ret a >>= f = f a
call r k >>= f = call r (λ x. k x >>= f)

-- isNotFound
unfoldable pub is_not_found : Fault → Bool
is_not_found not_exist = true
is_not_found (api code) = code == 404
is_not_found _ = false

-- checkPreconditionFailedOk, on an error that is there.
unfoldable pub precondition_failed : Fault → Bool
precondition_failed (api code) = code == 412
precondition_failed _ = false

-- lostOwnership
unfoldable pub lost_ownership : Fault → Bool
unfolding is_not_found precondition_failed
lost_ownership e = is_not_found e || precondition_failed e

-- `errors.Is(err, storage.ErrObjectNotExist)`
abbrev pub is_not_exist : Fault → Bool
is_not_exist not_exist = true
is_not_exist _ = false

abbrev pub too_many_requests : Fault → Bool
too_many_requests (api code) = code == 429
too_many_requests _ = false
