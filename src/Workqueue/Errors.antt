-- ===== src/Workqueue/Errors.antt =====
-- workqueue/error.go: the errors by which a reconciler tells the dispatcher what to do with a key.
-- A Go `error` that may be nil is an `Option Err`. The status package of gRPC is a parameter.
pub mod Markers
use go_driftlessaf.Base.{
  ℕ, String, Bool, true, false, Option, none, some, List, [], ◌∷◌, if◌then◌else◌, is_some,
}
use go_driftlessaf.Base.{ℤ, pos, ltb_ℤ, ◌+ℤ◌, ◌%◌, pos_part}
use go_driftlessaf.Clock.{Duration, add_duration}

pub record QueueKey : Type 0 where
  pub key : String
  pub priority : ℤ
  pub delay_seconds : ℤ

-- The codes that the source tells apart.
pub data Code : Type 0 where
  ok_code not_found unavailable internal unknown : Code
  other_code : ℕ → Code

-- A detail of a status: NoRetryDetails with its reason, or any other message.
pub data Detail : Type 0 where
  no_retry : String → Detail
  other_detail : ℕ → Detail

pub record Status : Type 0 where
  pub code : Code
  pub message : String
  pub details : List Detail

-- The errors that meet in the queue: those of this package, gRPC statuses, those that wrap another
-- by fmt.Errorf with %w, and any others, told apart by a number. `Causes` is a slice of errors,
-- some of which may be nil.
mutual
  pub data Err : Type 0 where
    other : ℕ → Err
    status_error : Status → Err
    requeue_error : Duration → Bool → Err
    queue_keys_error : List QueueKey → Err
    infrastructure_error : Err → Causes → Err
    wrapped : String → Err → Err

  pub data Causes : Type 0 where
    end : Causes
    cause : Err → Causes → Causes
    nil_cause : Causes → Causes

abbrev pub or_else : {B : Type 0} → Option B → Option B → Option B
or_else none d = d
or_else (some b) d = some b

-- errors.As: the first error that matches, the error itself before those that it unwraps to.
unfoldable mutual
  pub errors_as : {B : Type 0} → (Err → Option B) → Err → Option B
  errors_as m (other n) = m (other n)
  errors_as m (status_error s) = m (status_error s)
  errors_as m (requeue_error d f) = m (requeue_error d f)
  errors_as m (queue_keys_error ks) = m (queue_keys_error ks)
  errors_as m (infrastructure_error e cs) =
      or_else (m (infrastructure_error e cs)) (or_else (errors_as m e) (causes_as m cs))
  errors_as m (wrapped s e) = or_else (m (wrapped s e)) (errors_as m e)

  pub causes_as : {B : Type 0} → (Err → Option B) → Causes → Option B
  causes_as m end = none
  causes_as m (cause e cs) = or_else (errors_as m e) (causes_as m cs)
  causes_as m (nil_cause cs) = causes_as m cs

-- errors.As on an error that may be nil.
abbrev pub find_error : {B : Type 0} → (Err → Option B) → Option Err → Option B
find_error m none = none
find_error m (some e) = errors_as m e

abbrev pub as_requeue : Err → Option (Duration × Bool)
as_requeue (requeue_error d f) = some (d, f)
as_requeue _ = none

abbrev pub as_queue_keys : Err → Option (List QueueKey)
as_queue_keys (queue_keys_error ks) = some ks
as_queue_keys _ = none

abbrev pub as_marker : Err → Option (Err × Causes)
as_marker (infrastructure_error e cs) = some (e, cs)
as_marker _ = none

abbrev pub requeue_after : Duration → Option Err
requeue_after d = some (requeue_error d false)

abbrev pub requeue_not_before : Duration → Option Err
requeue_not_before d = some (requeue_error d true)

-- GetRequeueOptions; `none` is ok = false.
abbrev pub get_requeue_options : Option Err → Option (Duration × Bool)
get_requeue_options e = find_error as_requeue e

abbrev first_of_pair : Option (Duration × Bool) → Option Duration
first_of_pair none = none
first_of_pair (some (d, f)) = some d

-- RequeueAfterWithJitter; `r` is the random number, which the generator draws below its bound.
pub requeue_after_with_jitter : Duration → Duration → ℕ → Option Err
requeue_after_with_jitter delay jitter r =
    requeue_after
      (if ltb_ℤ (pos 0) jitter then add_duration delay (pos (r % pos_part jitter)) else delay)

unfoldable pub get_requeue_delay : Option Err → Option Duration
get_requeue_delay e = first_of_pair (get_requeue_options e)

unfoldable pub queue_keys : List QueueKey → Option Err
queue_keys [] = none
queue_keys (k ∷ ks) = some (queue_keys_error (k ∷ ks))

abbrev keys_of : Option (List QueueKey) → List QueueKey
keys_of none = []
keys_of (some ks) = ks

unfoldable pub get_queue_keys : Option Err → List QueueKey
get_queue_keys e = keys_of (find_error as_queue_keys e)

-- InfrastructureError.
unfoldable pub mark_infrastructure : Option Err → Causes → Option Err
mark_infrastructure none cs = none
mark_infrastructure (some e) cs = some (infrastructure_error e cs)

unfoldable pub has_infrastructure_marker : Option Err → Bool
has_infrastructure_marker e = is_some (find_error as_marker e)

-- The errors of a slice, without the nil ones.
unfoldable pub present : Causes → List Err
present end = []
present (cause e cs) = e ∷ present cs
present (nil_cause cs) = present cs

-- InfrastructureCauses; the empty list is nil.
unfoldable pub infrastructure_causes : Option Err → List Err
unfolding present
infrastructure_causes e = elim (find_error as_marker e) [ none ↦ [] | some (_, cs) ↦ present cs ]

-- What the source uses of google.golang.org/grpc/status: `status.FromError`, `s.WithDetails`, whose
-- error is `none`, `s.Err()`, and `status.Code`.
pub record GrpcStatus : Type 0 where
  pub from_error : Err → Status × Bool
  pub with_details : Status → Detail → Option Status
  pub err_of : Status → Option Err
  pub code_of : Option Err → Code

abbrev pub is_unavailable : Code → Bool
is_unavailable unavailable = true
is_unavailable _ = false

abbrev pub first_no_retry : List Detail → Option String
first_no_retry [] = none
first_no_retry (no_retry s ∷ ds) = some s
first_no_retry (other_detail n ∷ ds) = first_no_retry ds

module _ (g : GrpcStatus) where
  unfoldable pub is_infrastructure_error : Option Err → Bool
  is_infrastructure_error e =
      if has_infrastructure_marker e then true else is_unavailable (g.code_of e)

  abbrev with_reason : Err → Option Status → Option Err
  with_reason e none = some e
  with_reason e (some s) = g.err_of s

  unfoldable pub non_retriable_error : Option Err → String → Option Err
  non_retriable_error none reason = none
  non_retriable_error (some e) reason =
      with_reason e (g.with_details (g.from_error e).0 (no_retry reason))

  -- GetNonRetriableDetails, as the reason in the details.
  unfoldable pub get_non_retriable_details : Option Err → Option String
  get_non_retriable_details none = none
  get_non_retriable_details (some e) =
      let (s, known) = g.from_error e in if known then first_no_retry s.details else none
