-- ===== src/Workqueue/Gcs/Owned/Attempts.antt =====
-- The attempts that workqueue/gcs/gcs.go keeps in the metadata of a key, through Start and
-- RequeueWithOptions.
use go_driftlessaf.Base.{ℕ, ◌≡◌, Option, none, some, pos, Bytes}
use go_driftlessaf.Decimal.{parse_int, parsed}
use go_driftlessaf.Workqueue.Options.{Options}
use go_driftlessaf.Workqueue.Gcs.Bucket.{Metadata}

-- The metadata counts n attempts, by none being there or by a text.
abbrev pub Counts : ℕ → Option Bytes → Type 0
Counts n none = n ≡ 0
Counts n (some t) = parse_int t ≡ parsed (pos n)
