-- ===== src/Workqueue/Inmem/Merge.antt =====
-- mergeOptions of workqueue/inmem/inmem.go against a lattice of schedules, which says what an
-- enqueue asks of a key without saying how the fields record it.
use mathlib.Core.List.{Perm, Permᴰ}
use mathlib.Core.Logic.{∥∥₁_elim}
use mathlib.Core.Option
use go_driftlessaf.Base.{
  String, Option, none, some, lookup, str_eq, inl, inr, ℕ, Bool-cases, eq_iff, ◌≡◌, refl, ◌∙◌, sym,
  ap, Bool, true, false, List, [], ◌∷◌, arith, if◌then◌else◌, ℤ, min_ℤ, max_ℤ, eq_of_parts,
}
use go_driftlessaf.Clock.{Instant}
use go_driftlessaf.Workqueue.Options.{Options}
use go_driftlessaf.Workqueue.Inmem.Entries.{lookup-upsert}
use go_driftlessaf.Workqueue.Inmem.{Wq, QueueItem, admit, merge_options, enqueue}

-- When a key may run: not before a floor that later enqueues cannot undercut, or from a time that
-- they can.
pub data Schedule : Type 0 where
  floor soft : Instant → Schedule

abbrev pub join : Schedule → Schedule → Schedule
join (floor a) (floor b) = floor (max_ℤ a b)
join (floor a) (soft b) = floor a
join (soft a) (floor b) = floor b
join (soft a) (soft b) = soft (min_ℤ a b)

abbrev schedule_of : Bool → Instant → Schedule
schedule_of true t = floor t
schedule_of false t = soft t

abbrev pub schedule : Options → Schedule
schedule o = schedule_of o.not_before_floor o.not_before

-- The priority and the schedule of a merged entry are the join of the two requests, in all four
-- combinations of floors.
pub merge_options-join :
    (dst src : Options)
    → (schedule (merge_options dst src) ≡ join (schedule dst) (schedule src))
      × ((merge_options dst src).priority ≡ max_ℤ dst.priority src.priority)
unfolding merge_options
merge_options-join dst src = ground arith

-- What an enqueue asks for, the fields that no one else reads left out.
pub record Request : Type 0 where
  pub rank : ℤ
  pub when : Schedule

abbrev pub request : Options → Request
request o = record { rank = o.priority; when = schedule o }

abbrev pub both : Request → Request → Request
both a b = record { rank = max_ℤ a.rank b.rank; when = join a.when b.when }

max_comm : (a b : ℤ) → max_ℤ a b ≡ max_ℤ b a
max_comm a b = ground (arith, eq_of_parts a b)

min_comm : (a b : ℤ) → min_ℤ a b ≡ min_ℤ b a
min_comm a b = ground (arith, eq_of_parts a b)

max_assoc : (a b c : ℤ) → max_ℤ (max_ℤ a b) c ≡ max_ℤ a (max_ℤ b c)
max_assoc a b c = ground arith

min_assoc : (a b c : ℤ) → min_ℤ (min_ℤ a b) c ≡ min_ℤ a (min_ℤ b c)
min_assoc a b c = ground arith

join_comm : (a b : Schedule) → join a b ≡ join b a
join_comm (floor a) (floor b) = ap floor (max_comm a b)
join_comm (floor a) (soft b) = refl
join_comm (soft a) (floor b) = refl
join_comm (soft a) (soft b) = ap soft (min_comm a b)

join_assoc : (a b c : Schedule) → join (join a b) c ≡ join a (join b c)
join_assoc (floor a) (floor b) (floor c) = ap floor (max_assoc a b c)
join_assoc (floor a) (floor b) (soft c) = refl
join_assoc (floor a) (soft b) (floor c) = refl
join_assoc (floor a) (soft b) (soft c) = refl
join_assoc (soft a) (floor b) (floor c) = refl
join_assoc (soft a) (floor b) (soft c) = refl
join_assoc (soft a) (soft b) (floor c) = refl
join_assoc (soft a) (soft b) (soft c) = ap soft (min_assoc a b c)

both_swap : (a b c : Request) → both (both a b) c ≡ both (both a c) b
both_swap a b c = λ i. record {
  rank =
      (max_assoc a.rank b.rank c.rank
          ∙ ap (max_ℤ a.rank) (max_comm b.rank c.rank)
          ∙ sym (max_assoc a.rank c.rank b.rank))
        i;
  when =
      (join_assoc a.when b.when c.when
          ∙ ap (join a.when) (join_comm b.when c.when)
          ∙ sym (join_assoc a.when c.when b.when))
        i;
}

request-merge_options :
    (dst src : Options) → request (merge_options dst src) ≡ both (request dst) (request src)
request-merge_options dst src =
    λ i. record { rank = (merge_options-join dst src).1 i; when = (merge_options-join dst src).0 i }

both_comm : (a b : Request) → both a b ≡ both b a
both_comm a b = λ i. record { rank = max_comm a.rank b.rank i; when = join_comm a.when b.when i }

-- What the queue holds for a key, seen as a request.
abbrev pub view : String → Wq → Option Request
view key w = Option.map (λ qi. request qi.options) (lookup key w.queue)

-- A request that comes in for a key.
abbrev pub also : Option Request → Request → Option Request
also none r = some r
also (some a) r = some (both a r)

also_swap : (o : Option Request) (a b : Request) → also (also o a) b ≡ also (also o b) a
also_swap none a b = ap some (both_comm a b)
also_swap (some o) a b = ap some (both_swap o a b)

-- A call of Queue: the key, its options, and the time of the call.
pub record Call : Type 0 where
  pub key : String
  pub options : Options
  pub at : Instant

unfoldable pub enqueue_all : List Call → Wq → Wq
enqueue_all [] w = w
enqueue_all (c ∷ cs) w = enqueue_all cs (enqueue c.key c.options c.at w)

asked : String → Call → Option Request → Option Request
asked j c o = if str_eq c.key j then also o (request c.options) else o

abbrev seen : Option QueueItem → Option Request
seen = Option.map (λ qi. request qi.options)

seen-admit :
    (o : Option QueueItem) (opts : Options) (attempts : ℕ) (now : Instant)
    → some (request (admit o opts attempts now).options) ≡ also (seen o) (request opts)
unfolding admit
seen-admit none opts attempts now = refl
seen-admit (some qi) opts attempts now = ap some (request-merge_options qi.options opts)

view-enqueue :
    (j : String) (c : Call) (w : Wq)
    → view j (enqueue c.key c.options c.at w) ≡ asked j c (view j w)
unfolding enqueue asked
view-enqueue j c w =
    rw (lookup-upsert c.key j c.options 0 c.at w.queue) (elim (Bool-cases (str_eq c.key j)) [
      | inl same ↦
          rw (same, ← (eq_iff c.key j).0 same) (seen-admit (lookup c.key w.queue) c.options 0 c.at)
      | inr other ↦ rw other
    ])

ask_all : String → List Call → Option Request → Option Request
ask_all j [] o = o
ask_all j (c ∷ cs) o = ask_all j cs (asked j c o)

view-enqueue_all :
    (j : String) (cs : List Call) (w : Wq) → view j (enqueue_all cs w) ≡ ask_all j cs (view j w)
unfolding enqueue_all ask_all
view-enqueue_all j [] w = refl
view-enqueue_all j (c ∷ cs) w =
    view-enqueue_all j cs (enqueue c.key c.options c.at w) ∙ ap (ask_all j cs) (view-enqueue j c w)

asked_swap :
    (j : String) (c d : Call) (o : Option Request)
    → asked j d (asked j c o) ≡ asked j c (asked j d o)
unfolding asked
asked_swap j c d o = ground (arith, also_swap o (request c.options) (request d.options))

ask_all-perm :
    (j : String) {cs ds : List Call} (o : Option Request)
    → Permᴰ cs ds
    → ask_all j cs o ≡ ask_all j ds o
unfolding ask_all
ask_all-perm j o Permᴰ.nil = refl
ask_all-perm j o (Permᴰ.cons {a = c} {l₂ = ds} e p) =
    ask_all-perm j (asked j c o) p ∙ ap (λ d. ask_all j ds (asked j d o)) e
ask_all-perm j o (Permᴰ.swap {a = c} {b = d} {l = ds} e f) =
    rw (← e, ← f) (ap (ask_all j ds) (asked_swap j c d o))
ask_all-perm j o (Permᴰ.trans p q) = ask_all-perm j o p ∙ ask_all-perm j o q

Request-set : IsSet Request
Request-set = hlevel

view-set : IsSet (Option Request)
view-set = hlevel Request-set

-- Whatever the order in which the lock admits a batch of enqueues, of the same key or of several,
-- the queue ends up asking the same priority and the same schedule of every key.
pub enqueue_order_free :
    (j : String) (cs ds : List Call) (w : Wq)
    → Perm cs ds
    → view j (enqueue_all cs w) ≡ view j (enqueue_all ds w)
enqueue_order_free j cs ds w p =
    ∥∥₁_elim p (view-set _ _)
      λ q. view-enqueue_all j cs w ∙ ask_all-perm j (view j w) q ∙ sym (view-enqueue_all j ds w)
