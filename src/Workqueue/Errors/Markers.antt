-- ===== src/Workqueue/Errors/Markers.antt =====
-- The errors of workqueue/error.go under the layers that callers wrap around them.
use go_driftlessaf.Base.{
  String, Bool, true, ◌≡◌, refl, Option, none, some, List, [], ◌∷◌, ◌++◌, arith,
}
use go_driftlessaf.Clock.{Duration}
use go_driftlessaf.Workqueue.Errors.{
  Err, Causes, requeue_error, infrastructure_error, wrapped, errors_as, as_requeue, as_queue_keys,
  get_requeue_options, get_queue_keys, has_infrastructure_marker, infrastructure_causes, present,
  GrpcStatus, Status, Detail, no_retry, is_infrastructure_error, non_retriable_error,
  get_non_retriable_details, first_no_retry, QueueKey,
}

-- The layers that callers put around an error: a message by fmt.Errorf, or the marker.
pub data Layer : Type 0 where
  message : String → Layer
  marker : Causes → Layer

abbrev pub wrap : List Layer → Err → Err
wrap [] e = e
wrap (message s ∷ ls) e = wrapped s (wrap ls e)
wrap (marker cs ∷ ls) e = infrastructure_error (wrap ls e) cs

-- A kind of error that no layer is one of is found under any layers, and the error's own comes
-- before anything among the causes.
errors_as-wrap :
    {B : Type 0} (m : Err → Option B) (ls : List Layer) (e : Err) (b : B)
    → ((s : String) (x : Err) → m (wrapped s x) ≡ none)
    → ((x : Err) (cs : Causes) → m (infrastructure_error x cs) ≡ none)
    → errors_as m e ≡ some b
    → errors_as m (wrap ls e) ≡ some b
unfolding errors_as
errors_as-wrap m [] e b hw hi h = h
errors_as-wrap m (message s ∷ ls) e b hw hi h =
    rw (hw s (wrap ls e)) (errors_as-wrap m ls e b hw hi h)
errors_as-wrap m (marker cs ∷ ls) e b hw hi h =
    rw (hi (wrap ls e) cs, errors_as-wrap m ls e b hw hi h)

-- However an error that asks for a requeue is wrapped and marked, GetRequeueOptions finds the same
-- delay and floor.
pub wrap-get_requeue_options :
    (ls : List Layer) (e : Err) (d : Duration) (f : Bool)
    → get_requeue_options (some e) ≡ some (d, f)
    → get_requeue_options (some (wrap ls e)) ≡ some (d, f)
wrap-get_requeue_options ls e d f h =
    errors_as-wrap as_requeue ls e (d, f) (λ s x. refl) (λ x cs. refl) h

get_queue_keys_found :
    (e : Err) (k : QueueKey) (ks : List QueueKey)
    → get_queue_keys (some e) ≡ k ∷ ks
    → errors_as as_queue_keys e ≡ some (k ∷ ks)
unfolding get_queue_keys
get_queue_keys_found e k ks h = ground arith

-- However an error that carries keys to queue is wrapped and marked, GetQueueKeys finds those keys.
pub wrap-get_queue_keys :
    (ls : List Layer) (e : Err) (k : QueueKey) (ks : List QueueKey)
    → get_queue_keys (some e) ≡ k ∷ ks
    → get_queue_keys (some (wrap ls e)) ≡ k ∷ ks
unfolding get_queue_keys
wrap-get_queue_keys ls e k ks h = rw (
    errors_as-wrap as_queue_keys ls e (k ∷ ks) (λ s x. refl) (λ x cs. refl)
      (get_queue_keys_found e k ks h))

has_marker-wrap :
    (ls : List Layer) (e : Err)
    → has_infrastructure_marker (some e) ≡ true
    → has_infrastructure_marker (some (wrap ls e)) ≡ true
unfolding has_infrastructure_marker errors_as
has_marker-wrap [] e h = h
has_marker-wrap (message s ∷ ls) e h = has_marker-wrap ls e h
has_marker-wrap (marker cs ∷ ls) e h = refl

abbrev pub messages : List String → List Layer
messages [] = []
messages (s ∷ ss) = message s ∷ messages ss

causes-messages :
    (ss : List String) (e : Err)
    → infrastructure_causes (some (wrap (messages ss) e)) ≡ infrastructure_causes (some e)
unfolding infrastructure_causes errors_as
causes-messages [] e = refl
causes-messages (s ∷ ss) e = causes-messages ss e

-- A requeue that is marked as an infrastructure failure, and then wrapped in messages, is still the
-- same requeue, is classified as infrastructure whatever status it carries, and yields the causes
-- that were recorded, the nil ones left out.
pub mark_infrastructure_transparent :
    (g : GrpcStatus) (ss : List String) (d : Duration) (f : Bool) (cs : Causes)
    → let e = some (wrap (messages ss) (infrastructure_error (requeue_error d f) cs)) in
      (get_requeue_options e ≡ some (d, f))
      × (is_infrastructure_error g e ≡ true)
      × (infrastructure_causes e ≡ present cs)
unfolding infrastructure_causes errors_as is_infrastructure_error
mark_infrastructure_transparent g ss d f cs = (
  wrap-get_requeue_options (messages ss) (infrastructure_error (requeue_error d f) cs) d f refl,
  rw (
      has_marker-wrap (messages ss) (infrastructure_error (requeue_error d f) cs)
        (unfold has_infrastructure_marker errors_as in refl)),
  causes-messages ss (infrastructure_error (requeue_error d f) cs),
)

-- The documented behaviour of the status package: WithDetails keeps the code and puts the detail
-- behind those there, and FromError gives back the status of an error that Err() made.
pub record StatusLaws (g : GrpcStatus) : Type 0 where
  pub with_details_appends :
      (s : Status) (d : Detail) (t : Status)
      → g.with_details s d ≡ some t
      → (t.details ≡ s.details ++ d ∷ []) × (t.code ≡ s.code)
  pub from_error-err_of : (s : Status) (e : Err) → g.err_of s ≡ some e → g.from_error e ≡ (s, true)

first_no_retry-append :
    (ds : List Detail) (reason : String)
    → first_no_retry ds ≡ none
    → first_no_retry (ds ++ no_retry reason ∷ []) ≡ some reason
first_no_retry-append [] reason h = refl
first_no_retry-append (no_retry s ∷ ds) reason h = cc
first_no_retry-append (Detail.other_detail n ∷ ds) reason h = first_no_retry-append ds reason h

-- The dispatcher finds the reason that NonRetriableError recorded, if the status of the error takes
-- the detail, is not OK, and holds no earlier reason.
pub non_retriable_error_reason :
    (g : GrpcStatus) (e e' : Err) (s : Status) (reason : String)
    → StatusLaws g
    → g.with_details (g.from_error e).0 (no_retry reason) ≡ some s
    → g.err_of s ≡ some e'
    → first_no_retry (g.from_error e).0.details ≡ none
    → get_non_retriable_details g (non_retriable_error g (some e) reason) ≡ some reason
unfolding non_retriable_error get_non_retriable_details
non_retriable_error_reason g e e' s reason laws added made fresh =
    rw
      (
        added,
        made,
        laws.from_error-err_of s e' made,
        (laws.with_details_appends (g.from_error e).0 (no_retry reason) s added).0,
      )
      (first_no_retry-append (g.from_error e).0.details reason fresh)
