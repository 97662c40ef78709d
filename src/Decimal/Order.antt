-- ===== src/Decimal/Order.antt =====
-- The order of texts that the format %08d gives, against the order of the numbers.
use native.Mathlib.Nat.{pow-suc}
use mathlib.Core.List.{append_assoc, append-nil}
use go_driftlessaf.Base.{
  ℕ, zero, suc, ◌+◌, ◌-◌, ◌/◌, ◌%◌, ◌^◌, ◌≤◌, ◌<◌, ◌≡◌, refl, ◌∙◌, ap, sym, true, false, [], ◌∷◌,
  ◌++◌, arith, inl, inr, Bool-cases, if◌then◌else◌, ltb, length, length-append, pos, Bytes, less,
  lt→ltb, two63,
}
use go_driftlessaf.Decimal.{digits, format_int, format_padded, zeros, most_digits}
use go_driftlessaf.Decimal.RoundTrip.{tenth_lt}

-- The last w digits of n.
unfoldable pub fixed : ℕ → ℕ → Bytes
fixed zero n = []
fixed (suc w) n = fixed w (n / 10) ++ (48 + n % 10) ∷ []

fixed-zero : (w : ℕ) → fixed w 0 ≡ zeros w
unfolding fixed zeros
fixed-zero zero = refl
fixed-zero (suc w) = ap (λ t. t ++ 48 ∷ []) (fixed-zero w) ∙ zeros-snoc w
  where
    zeros-snoc : (k : ℕ) → zeros k ++ 48 ∷ [] ≡ 48 ∷ zeros k
    zeros-snoc zero = refl
    zeros-snoc (suc k) = ap (λ t. 48 ∷ t) (zeros-snoc k)

length-fixed : (w n : ℕ) → length (fixed w n) ≡ w
unfolding fixed
length-fixed zero n = refl
length-fixed (suc w) n =
    omega (arith, length-append (fixed w (n / 10)) ((48 + n % 10) ∷ []), length-fixed w (n / 10))

-- Zeros before the digits of n make up its last digits, if n has no more of them.
pub padded-fixed :
    (v w n : ℕ)
    → n < 10 ^ v
    → n < 10 ^ suc w
    → zeros (suc w - length (digits v n)) ++ digits v n ≡ fixed (suc w) n
unfolding digits fixed zeros
padded-fixed zero w n h k =
    let e : 0 ≡ n = omega arith in
    let all : suc w - 0 ≡ suc w = omega arith in
    rw all (append-nil (zeros (suc w)) ∙ sym (fixed-zero (suc w)) ∙ ap (fixed (suc w)) e)
padded-fixed (suc v) zero n h k = rw (lt→ltb n 10 (omega (arith, pow-suc 10 0))) (ground arith)
padded-fixed (suc v) (suc w) n h k = elim (Bool-cases (ltb n 10)) [
  | inl one ↦
      let e : n % 10 ≡ n = ground arith in
      let z : n / 10 ≡ 0 = ground arith in
      let low : suc (suc w) - 1 ≡ suc w = omega arith in rw (one, e, z, fixed-zero (suc w), low)
  | inr more ↦
      let d = digits v (n / 10) in
      let c = 48 + n % 10 in
      let fewer : suc (suc w) - length (d ++ c ∷ []) ≡ suc w - length d =
        omega (arith, length-append d (c ∷ [])) in
      rw (more, fewer, ← append_assoc (zeros (suc w - length d)) d (c ∷ []))
        (ap (λ t. t ++ c ∷ []) (padded-fixed v w (n / 10) (tenth_lt v n h) (tenth_lt (suc w) n k)))
]

less-snoc :
    (s t : Bytes) (c d : ℕ)
    → length s ≡ length t
    → less (s ++ c ∷ []) (t ++ d ∷ [])
      ≡ (if less s t then true else if less t s then false else ltb c d)
unfolding less
less-snoc [] [] c d h = ground arith
less-snoc [] (b ∷ t) c d h = absurd (omega arith)
less-snoc (a ∷ s) [] c d h = absurd (omega arith)
less-snoc (a ∷ s) (b ∷ t) c d h = ground (arith, less-snoc s t c d (omega arith))

pub less-fixed : (w a b : ℕ) → a < 10 ^ w → b < 10 ^ w → less (fixed w a) (fixed w b) ≡ ltb a b
unfolding fixed less
less-fixed zero a b h k = ground arith
less-fixed (suc w) a b h k =
    less-snoc (fixed w (a / 10)) (fixed w (b / 10)) (48 + a % 10) (48 + b % 10)
      (length-fixed w (a / 10) ∙ sym (length-fixed w (b / 10)))
    ∙ rw
        (
          less-fixed w (a / 10) (b / 10) (tenth_lt w a h) (tenth_lt w b k),
          less-fixed w (b / 10) (a / 10) (tenth_lt w b k) (tenth_lt w a h),
        )
        (ground arith)

abbrev width : ℕ
width = 8

-- Below 10 ^ 8 the format has exactly eight digits.
format_padded-fixed : (n : ℕ) → n < 10 ^ width → format_padded (pos n) ≡ fixed width n
unfolding format_padded
format_padded-fixed n h = padded-fixed most_digits 7 n (omega arith) h

-- Texts of priorities from 0 to 99999999 compare as the priorities do.
pub less-format_padded :
    (a b : ℕ)
    → a < 10 ^ 8
    → b < 10 ^ 8
    → less (format_padded (pos a)) (format_padded (pos b)) ≡ ltb a b
less-format_padded a b h k =
    rw (format_padded-fixed a h, format_padded-fixed b k) (less-fixed width a b h k)

-- The first byte lies in a range.
abbrev Leads : ℕ → ℕ → Bytes → Type 0
Leads lo hi [] = ⊥
Leads lo hi (c ∷ s) = (lo ≤ c) × (c ≤ hi)

Leads-append : (lo hi : ℕ) (s t : Bytes) → Leads lo hi s → Leads lo hi (s ++ t)
Leads-append lo hi [] t h = absurd h
Leads-append lo hi (c ∷ s) t h = h

digits-Leads : (w n : ℕ) → 0 < n → n < 10 ^ w → Leads 49 57 (digits w n)
unfolding digits
digits-Leads zero n pos_n h = absurd (omega arith)
digits-Leads (suc w) n pos_n h = elim (Bool-cases (ltb n 10)) [
  | inl one ↦ rw one (ground arith)
  | inr more ↦ rw more (
      Leads-append 49 57 (digits w (n / 10)) ((48 + n % 10) ∷ [])
        (digits-Leads w (n / 10) (ground arith) (tenth_lt w n h)))
]

fixed-Leads : (w n : ℕ) → n < 10 ^ w → Leads 48 48 (fixed (suc w) n)
unfolding fixed
fixed-Leads zero n h = omega arith
fixed-Leads (suc w) n h =
    Leads-append 48 48 (fixed (suc w) (n / 10)) ((48 + n % 10) ∷ [])
      (fixed-Leads w (n / 10) (tenth_lt w n h))

less-Leads : (s t : Bytes) → Leads 48 48 s → Leads 49 57 t → (less s t ≡ true) × (less t s ≡ false)
unfolding less
less-Leads [] t h k = absurd h
less-Leads (a ∷ s) [] h k = absurd k
less-Leads (a ∷ s) (b ∷ t) h k = ground arith

-- A positive number that is not padded comes after every padded one below 10 ^ 7, whatever the two
-- numbers are.
pub less-unpadded :
    (p q : ℕ)
    → 0 < p
    → p < two63
    → q < 10 ^ 7
    → (less (format_padded (pos q)) (format_int (pos p)) ≡ true)
      × (less (format_int (pos p)) (format_padded (pos q)) ≡ false)
unfolding format_int
less-unpadded p q h k l = rw (format_padded-fixed q (omega arith)) (
    less-Leads (fixed width q) (digits most_digits p) (fixed-Leads 7 q l)
      (digits-Leads most_digits p h (omega arith)))
