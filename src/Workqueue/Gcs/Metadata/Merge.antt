-- ===== src/Workqueue/Gcs/Metadata/Merge.antt =====
-- updateMetadata of workqueue/gcs/gcs.go, which compares texts, against mergeOptions of
-- workqueue/inmem/inmem.go, which compares values.
use go_driftlessaf.Base.{
  ℕ, ◌<◌, ◌^◌, ◌≡◌, false, some, if◌then◌else◌, ℤ, pos, negsuc, Bytes, less, arith,
}
use go_driftlessaf.Workqueue.Options.{Options}
use go_driftlessaf.Workqueue.Gcs.Bucket.{Metadata}
use go_driftlessaf.Workqueue.Gcs.Metadata.{year_10000, value_at, merge_metadata}

-- A number from 0 on and below a bound.
abbrev pub Below : ℕ → ℤ → Type 0
Below n (pos k) = k < n
Below n (negsuc k) = ⊥

-- The options that eight digits of priority and four of the year can hold.
pub record IsStorable (o : Options) : Type 0 where
  pub priority : Below (10 ^ 8) o.priority
  pub not_before : Below year_10000 o.not_before

-- A merge that need not be written changes nothing.
pub merge_metadata_idle :
    (m n : Metadata) → (merge_metadata m n).1 ≡ false → (merge_metadata m n).0 ≡ m
unfolding merge_metadata
merge_metadata_idle m n h = ground arith

-- The priority of a merge, where there is one.
pub merge_metadata-priority :
    (m n : Metadata) (p : Bytes)
    → m.priority ≡ some p
    → (merge_metadata m n).0.priority
      ≡ some (if less p (value_at n.priority) then value_at n.priority else p)
unfolding merge_metadata
merge_metadata-priority m n p h = ground arith
