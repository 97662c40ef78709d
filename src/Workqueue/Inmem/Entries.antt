-- ===== src/Workqueue/Inmem/Entries.antt =====
-- What an enqueue, a requeue, a start and a completion of workqueue/inmem/inmem.go do to each entry.
use go_driftlessaf.Base.{ℕ, ◌≡◌, String, some, if◌then◌else◌, str_eq, lookup, lookup-insert}
use go_driftlessaf.Clock.{Instant}
use go_driftlessaf.Workqueue.Options.{Options}
use go_driftlessaf.Workqueue.Inmem.{Items, admit, upsert}

pub lookup-upsert :
    (k j : String) (opts : Options) (attempts : ℕ) (now : Instant) (q : Items)
    → lookup j (upsert k opts attempts now q)
      ≡ (if str_eq k j then some (admit (lookup k q) opts attempts now) else lookup j q)
unfolding upsert
lookup-upsert k j opts attempts now q = simp lookup-insert
