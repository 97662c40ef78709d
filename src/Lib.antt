-- ===== src/Lib.antt =====
-- The work queue of go-driftlessaf and the parts around it: a model of the Go source.
--
-- A key is enqueued, waits, is started by a dispatcher, and is completed, put back or given up.
--
--   * Base: numbers, integers, lists, sorting, and Go maps as association lists. Clock: what the
--     source uses of the package time, with int64 wrap-around, and internal/jitter.
--   * Workqueue.Options, Workqueue.Interface: workqueue/interface.go. The interface of a queue is the
--     record Backend of operations on a state; the dispatcher takes any Backend.
--   * Workqueue.Errors: workqueue/error.go. An error is a tree, errors.As a search through it; the
--     status package of gRPC is the parameter GrpcStatus, with its documented behaviour in StatusLaws.
--   * Workqueue.Inmem: workqueue/inmem/inmem.go. Each method is a function from the state that the
--     mutex protects to the state after it: Queue is enqueue, Get get, Enumerate enumerate, Start
--     start, RequeueWithOptions requeue_with_options, Complete complete, Deadletter deadletter. A
--     sequence of calls is a list of Op; Inmem.Service gives the queue as a Backend with its clock.
--   * Workqueue.Gcs: workqueue/gcs/gcs.go. A handler is a program over the requests that it sends to
--     the bucket, the clock, the random source and the context (Gcs.Bucket); a theorem says what the
--     program sends and how it ends for every way in which these answer (Gcs.Reasoning), so that other
--     processes may do anything to the bucket in between. Queue and updateMetadata are in Gcs.Enqueue,
--     the metadata and their merge in Gcs.Metadata, Start in Gcs.Owned, RequeueWithOptions in
--     Gcs.Requeue, Complete, Deadletter and deleteWithRetry in Gcs.Release, refreshLease and the
--     heartbeat in Gcs.Lease, Enumerate in Gcs.Listing, Get in Gcs.Lookup. Decimal has the texts of
--     strconv and of the format %08d; RFC 3339 texts are the parameter TimeText, with what the queue
--     relies on, from the year 1 to 9999, in IsTimeText.
--   * Workqueue.Policy: workqueue/dispatcher/dispatcher.go and options.go. The ladder of tests on the
--     callback's error is plan; retryBackoff is retry_backoff.
--   * Workqueue.Dispatcher: workqueue/dispatcher/dispatcher.go. HandleAsync lists the queue and starts
--     tasks (handle_async); a task is a goroutine, and step_task is one call of it on the queue or on
--     the callback.
--   * Workqueue.Callback: ServiceCallback of the dispatcher, and drainRequeueResponse of
--     workqueue/drain.go; Workqueue.Drain is DrainInterceptor of that file, for each way in which its
--     race ends.
--   * Workqueue.Hyperqueue: workqueue/hyperqueue/hyperqueue.go, New, Process and GetKeyState.
--   * Workqueue.Retries: the dispatcher over the in-memory queue, for a key that keeps failing.
--   * Breaker: breaker/breaker.go, the keyed circuit breaker: Allow, RecordSuccess, RecordFailure.
--   * Agents.Retry: agents/executor/retry/retry.go, RetryWithBackoff and RequeueIfRetryable.
--   * Agents.Checkpoint: agents/checkpoint, the envelope of a suspended conversation and its gates
--     (Validate, ValidateForResume); Agents.Checkpoint.Answer, Cap and Frame are answer.go, over
--     bytes: StripAnswerDelimiters, CapText and FrameAnswer; Agents.Checkpoint.Memstore is
--     agents/checkpoint/memstore, and Jsonlstore is agents/checkpoint/jsonlstore over the bytes of its
--     file, for each way in which the disk answers an append.
--   * Agents.Suspend: agents/suspend/coordinator.go. Suspend is suspend; Wake is a task whose steps
--     are step_wake (Agents.Suspend.Wake), so that others may step in between; Memquestions is
--     agents/suspend/memquestions. The coordinator takes any Store and any QuestionStore.
--   * Store.Blob: store/blob/mem.go, objects with generations: Put, Get and Delete, and List in
--     Store.Blob.Listing.
--   * Reconcilers.Resync: reconcilers/resync/sharder.go, New and Process.
--   * Reconcilers.Issues: reconcilers/githubreconciler/issuemanager. NewSession is new_session, over
--     the pages of the listing; Reconcile (Issues.Session) takes the log of the calls made so far, and
--     GitHub answers each call by any function of that log.
--   * Reconcilers.Metapath: reconcilers/githubreconciler/metapathreconciler: grouping.go, the pass of
--     issues.go over a path (Metapath.Pass), which drives an issue session, and diff.go
--     (Metapath.Diff).
--   * Examples: the statements on concrete inputs.
--
-- Instants are integers, nanoseconds from Go's zero time; durations are int64 values, and where the
-- source multiplies, shifts or adds durations, the wrap-around is written out. What the code reads
-- from the clock or a random source is an argument. Go's map order is a list's order, and the
-- theorems hold for any. Loops run on structural recursion: the rounds of a doubling loop are counted
-- by the attempts, a task ends after a number of steps that is proved, and the loop that strips
-- delimiters has as many rounds as the text has bytes, of which each but the last removes some. The
-- loops that wait on the bucket (Queue, requeueOnce, refreshLease) take fuel, and end before it does
-- unless the queued object keeps vanishing, or the lease has not yet run out. An int64 has at most 19
-- digits, so that twenty rounds print it.
--
-- Not modelled: logs and metrics, the event emitter's transport, the network clients, and the parts of
-- the repository that only drive external APIs.
pub mod Base
pub mod Clock
pub mod Decimal
pub mod Workqueue
pub mod Breaker
pub mod Agents
pub mod Reconcilers
pub mod Store
pub mod Examples
