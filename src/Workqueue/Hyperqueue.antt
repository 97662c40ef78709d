-- ===== src/Workqueue/Hyperqueue.antt =====
-- workqueue/hyperqueue/hyperqueue.go: a service that hands each key to one of its backends. The
-- clients of the backends are functions, and `int` has 64 bits.
use Prim.Native.Nat.{bit_xor}
use go_driftlessaf.Base.{
  ℕ, zero, suc, ◌*◌, ◌%◌, ◌<◌, ◌≡◌, refl, ap, Option, none, some, List, [], ◌∷◌, length, Bytes,
  arith,
}
use go_driftlessaf.Workqueue.Errors.{other, wrapped}
use go_driftlessaf.Workqueue.Interface.{Reply, ok, err}

-- WorkqueueServiceClient, the two calls that the server makes: each takes the key of the request and
-- the rest of it.
pub record Client (Request State Response : Type 0) : Type 0 where
  pub process : Bytes → Request → Reply Response
  pub get_key_state : Bytes → Request → Reply State

abbrev two32 : ℕ
two32 = 4294967296

-- fnv.New32a: the 32-bit FNV-1a hash, behind the bytes so far.
unfoldable pub fnv32a : ℕ → Bytes → ℕ
fnv32a h [] = h
fnv32a h (b ∷ s) = fnv32a (bit_xor h b * 16777619 % two32) s

abbrev pub offset32 : ℕ
offset32 = 2166136261

-- An element of a slice; none stands for the panic.
unfoldable pub index {ℓ} : {A : Type ℓ} → List A → ℕ → Option A
index [] n = none
index (x ∷ xs) zero = some x
index (x ∷ xs) (suc n) = index xs n

module _ {Request State Response : Type 0} where
  -- New
  unfoldable pub new :
      List (Client Request State Response) → Reply (List (Client Request State Response))
  new [] = err (wrapped "at least one backend is required" (other 0))
  new (b ∷ bs) = ok (b ∷ bs)

  unfoldable pub shard_for :
      List (Client Request State Response) → Bytes → Option (Client Request State Response)
  shard_for backends key = index backends (fnv32a offset32 key % length backends)

  through :
      {A : Type 0}
      → (Client Request State Response → A)
      → Option (Client Request State Response)
      → Option A
  through f none = none
  through f (some b) = some (f b)

  -- Process and GetKeyState; none stands for a panic.
  unfoldable pub process :
      List (Client Request State Response) → Bytes → Request → Option (Reply Response)
  unfolding through
  process backends key req = through (λ b. b.process key req) (shard_for backends key)

  unfoldable pub get_key_state :
      List (Client Request State Response) → Bytes → Request → Option (Reply State)
  unfolding through
  get_key_state backends key req = through (λ b. b.get_key_state key req) (shard_for backends key)

  index-length :
      (bs : List (Client Request State Response)) (n : ℕ)
      → n < length bs
      → (b : Client Request State Response) × (index bs n ≡ some b)
  unfolding index
  index-length [] n h = absurd (omega arith)
  index-length (b ∷ bs) zero h = (b, refl)
  index-length (b ∷ bs) (suc n) h = index-length bs n (omega arith)

  -- A server that New made hands each key to one backend, for every call: Process and GetKeyState
  -- reach the same one, so that the state of a key is asked where the key is worked on.
  pub process-get_key_state :
      (backends served : List (Client Request State Response)) (key : Bytes) (p q : Request)
      → new backends ≡ ok served
      → (b : Client Request State Response) × (process served key p ≡ some (b.process key p))
        × (get_key_state served key q ≡ some (b.get_key_state key q))
  unfolding process get_key_state through shard_for new
  process-get_key_state [] served key p q h = cc
  process-get_key_state (c ∷ cs) [] key p q h = cc
  process-get_key_state (c ∷ cs) (s ∷ ss) key p q h =
      let (b, found) =
        index-length (s ∷ ss) (fnv32a offset32 key % length (s ∷ ss)) (ground arith) in
      (
        b,
        ap (through (λ b. b.process key p)) found,
        ap (through (λ b. b.get_key_state key q)) found,
      )
