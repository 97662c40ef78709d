-- ===== src/Examples/Status.antt =====
-- A concrete status package for workqueue/error.go, and its errors on concrete inputs.
use go_driftlessaf.Base.{Bool, true, false, Option, none, some, [], ◌∷◌, ◌++◌, pos, arith}
use go_driftlessaf.Workqueue.Errors.{
  Err, Code, ok_code, unknown, internal, Detail, Status, GrpcStatus, QueueKey, status_error,
}
use go_driftlessaf.Workqueue.Errors.Markers.{StatusLaws}

abbrev plain_status : Err → Status × Bool
plain_status (status_error s) = (s, true)
plain_status _ = (record { code = unknown; message = ""; details = [] }, false)

abbrev err_of_status : Code → Status → Option Err
err_of_status ok_code s = none
err_of_status _ s = some (status_error s)

abbrev append_detail : Code → Status → Detail → Option Status
append_detail ok_code s d = none
append_detail _ s d = some (record s { details = s.details ++ d ∷ [] })

abbrev code_of_error : Option Err → Code
code_of_error none = ok_code
code_of_error (some (status_error s)) = s.code
code_of_error (some _) = unknown

abbrev pub plain_grpc : GrpcStatus
plain_grpc = record {
  from_error = plain_status;
  with_details = λ s d. append_detail s.code s d;
  err_of = λ s. err_of_status s.code s;
  code_of = code_of_error;
}

plain_laws : StatusLaws plain_grpc
plain_laws = record {
  with_details_appends = λ s d t h. ground arith;
  from_error-err_of = λ s e h. ground arith;
}

abbrev bad_request : Status
bad_request = record { code = internal; message = "no such repo"; details = [] }

abbrev one_key : QueueKey
one_key = record { key = "b"; priority = pos 3; delay_seconds = pos 60 }
