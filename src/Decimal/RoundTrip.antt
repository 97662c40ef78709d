-- ===== src/Decimal/RoundTrip.antt =====
-- strconv.ParseInt after strconv.FormatInt and after the format %08d.
use native.Mathlib.Nat.{pow-suc}
use mathlib.Core.Path.{subst₂}
use mathlib.Core.List.{append_assoc, append-nil}
use go_driftlessaf.Base.{
  ℕ, zero, suc, ◌+◌, ◌-◌, ◌*◌, ◌/◌, ◌%◌, ◌^◌, ◌≤◌, ◌<◌, ◌≡◌, refl, ◌∙◌, ap, sym, true, [], ◌∷◌,
  ◌++◌, arith, inl, inr, Bool-cases, if◌then◌else◌, ◌==◌, false, lt→ltb, le→leb, ltb, leb, length,
  ℤ, pos, negsuc, two63, two64, Bytes,
}
use go_driftlessaf.Decimal.{
  digits, format_int, format_padded, zeros, most_digits, scan, whole, scan_all, parsed, parse_int,
  positive, negative, out_of_range,
}

pub tenth_lt : (w n : ℕ) → n < 10 ^ suc w → n / 10 < 10 ^ w
tenth_lt w n h = omega (arith, pow-suc 10 w)

scan-digit : (n : ℕ) (s : Bytes) → n < two64 → scan ((48 + n % 10) ∷ s) (n / 10) ≡ scan s n
unfolding scan
scan-digit n s h =
    let e : n / 10 * 10 + (48 + n % 10 - 48) ≡ n = omega arith in
    let low : leb 48 (48 + n % 10) ≡ true = ground arith in
    let high : leb (48 + n % 10) 57 ≡ true = ground arith in
    let fits : ltb n two64 ≡ true = ground arith in rw (e, low, high, fits)

-- Scanning the digits of n goes on behind them with n.
pub scan-digits :
    (w n : ℕ) (s : Bytes) → n < 10 ^ w → n < two64 → scan (digits w n ++ s) 0 ≡ scan s n
unfolding digits
scan-digits zero n s h k = ap (scan s) (let e : 0 ≡ n = omega arith in e)
scan-digits (suc w) n s h k = elim (Bool-cases (ltb n 10)) [
  | inl one ↦ rw one (
      let e : n % 10 ≡ n = ground arith in
      let z : n / 10 ≡ 0 = ground arith in
      subst₂ (λ d q. scan ((48 + d) ∷ s) q ≡ scan s n) e z (scan-digit n s k))
  | inr more ↦
      rw (more, append_assoc (digits w (n / 10)) ((48 + n % 10) ∷ []) s)
        (scan-digits w (n / 10) ((48 + n % 10) ∷ s) (tenth_lt w n h) (omega arith)
          ∙ scan-digit n s k)
]

pub scan-zeros : (k : ℕ) (s : Bytes) → scan (zeros k ++ s) 0 ≡ scan s 0
unfolding scan zeros
scan-zeros zero s = refl
scan-zeros (suc k) s = scan-zeros k s

-- The texts that start with a digit.
abbrev pub Starts : Bytes → Type 0
Starts [] = ⊥
Starts (c ∷ s) = (48 ≤ c) × (c ≤ 57)

Starts-append : (s t : Bytes) → Starts s → Starts (s ++ t)
Starts-append [] t h = absurd h
Starts-append (c ∷ s) t h = h

digits-Starts : (w n : ℕ) → n < 10 ^ suc w → Starts (digits (suc w) n)
unfolding digits
digits-Starts zero n h = rw (lt→ltb n 10 (omega (arith, pow-suc 10 0))) (ground arith)
digits-Starts (suc w) n h = elim (Bool-cases (ltb n 10)) [
  | inl one ↦ rw one (ground arith)
  | inr more ↦ rw more (
      Starts-append (digits (suc w) (n / 10)) ((48 + n % 10) ∷ [])
        (digits-Starts w (n / 10) (tenth_lt (suc w) n h)))
]

padded-Starts : (k w n : ℕ) → n < 10 ^ suc w → Starts (zeros k ++ digits (suc w) n)
unfolding zeros
padded-Starts zero w n h = digits-Starts w n h
padded-Starts (suc k) w n h = ground arith

scan_all-Starts : (s : Bytes) → Starts s → scan_all s ≡ scan s 0
scan_all-Starts [] h = absurd h
scan_all-Starts (c ∷ s) h = refl

parse_int-Starts : (s : Bytes) → Starts s → parse_int s ≡ positive (scan s 0)
unfolding parse_int
parse_int-Starts [] h = absurd h
parse_int-Starts (c ∷ s) h =
    let minus : (c == b'-') ≡ false = ground arith in
    let plus : (c == b'+') ≡ false = ground arith in rw (minus, plus)

-- Every int64 has at most 19 digits.
fits : (n : ℕ) → n ≤ two63 → n < 10 ^ most_digits
fits n h = omega arith

-- The digits of n behind any number of zeros scan to n.
scan-padded : (k n : ℕ) → n ≤ two63 → scan (zeros k ++ digits most_digits n) 0 ≡ whole n
unfolding scan
scan-padded k n h =
    scan-zeros k (digits most_digits n)
    ∙ ap (λ t. scan t 0) (sym (append-nil (digits most_digits n)))
    ∙ scan-digits most_digits n [] (fits n h) (omega arith)

pub parse_int-padded :
    (k n : ℕ) → n < two63 → parse_int (zeros k ++ digits most_digits n) ≡ parsed (pos n)
parse_int-padded k n h =
    parse_int-Starts _ (padded-Starts k 19 n (fits n (omega arith)))
    ∙ ap positive (scan-padded k n (omega arith))
    ∙ ap (λ b. if b then parsed (pos n) else out_of_range (pos (two63 - 1))) (lt→ltb n two63 h)

parse_int-minus :
    (k n : ℕ)
    → n < two63
    → parse_int (b'-' ∷ (zeros k ++ digits most_digits (suc n))) ≡ parsed (negsuc n)
unfolding parse_int
parse_int-minus k n h =
    ap negative
      (scan_all-Starts _ (padded-Starts k 19 (suc n) (fits (suc n) h)) ∙ scan-padded k (suc n) h)
    ∙ ap (λ b. if b then parsed (negsuc n) else out_of_range (negsuc (two63 - 1)))
        (le→leb (suc n) two63 h)

-- The int64 values.
abbrev pub IsInt64 : ℤ → Type 0
IsInt64 (pos n) = n < two63
IsInt64 (negsuc n) = n < two63

-- ParseInt gives back every int64, formatted plainly or with the zeros of %08d, the negative ones
-- included.
pub parse_int-format :
    (i : ℤ)
    → IsInt64 i
    → (parse_int (format_int i) ≡ parsed i) × (parse_int (format_padded i) ≡ parsed i)
unfolding format_int format_padded zeros
parse_int-format (pos n) h =
    (parse_int-padded 0 n h, parse_int-padded (8 - length (digits most_digits n)) n h)
parse_int-format (negsuc n) h =
    (parse_int-minus 0 n h, parse_int-minus (7 - length (digits most_digits (suc n))) n h)
