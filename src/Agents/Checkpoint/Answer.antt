-- ===== src/Agents/Checkpoint/Answer.antt =====
-- agents/checkpoint/answer.go: StripAnswerDelimiters, which removes the delimiters of a framed answer
-- from a text. A text is its bytes.
pub use go_driftlessaf.Base.{Bytes, ascii}
use go_driftlessaf.Base.{
  ℕ, zero, suc, ◌-◌, ◌≤◌, ◌<◌, ◌≡◌, refl, Bool, true, false, ◌||◌, [], ◌∷◌, arith, inl, inr,
  if◌then◌else◌, ◌==◌, length, Bool-cases,
}

abbrev pub answer_open : Bytes
answer_open = ascii "<<<BEGIN HUMAN ANSWER>>>"

abbrev pub answer_close : Bytes
answer_close = ascii "<<<END HUMAN ANSWER>>>"

-- `strings.HasPrefix(s, d)`
unfoldable pub has_prefix : Bytes → Bytes → Bool
has_prefix [] s = true
has_prefix (a ∷ d) [] = false
has_prefix (a ∷ d) (b ∷ s) = let rest = has_prefix d s in if a == b then rest else false

-- `strings.Contains(s, d)`
unfoldable pub contains : Bytes → Bytes → Bool
unfolding has_prefix
contains d [] = has_prefix d []
contains d (b ∷ s) = has_prefix d (b ∷ s) || contains d s

-- `strings.ReplaceAll(s, d, "")` for a d that is not empty: the bytes still to skip count down.
unfoldable pub cut : Bytes → ℕ → Bytes → Bytes
unfolding has_prefix
cut d n [] = []
cut d (suc n) (b ∷ s) = cut d n s
cut d zero (b ∷ s) =
    let skipped = cut d (length d - 1) s in
    let kept = b ∷ cut d zero s in if has_prefix d (b ∷ s) then skipped else kept

-- The loop of StripAnswerDelimiters, at most so many rounds.
unfoldable pub strip_rounds : Bytes → Bytes → ℕ → Bytes → Bytes
unfolding contains cut
strip_rounds opening closing zero s = s
strip_rounds opening closing (suc n) s =
    let rest = strip_rounds opening closing n (cut closing zero (cut opening zero s)) in
    if contains opening s || contains closing s then rest else s

-- StripAnswerDelimiters: a round that goes on shortens the text.
unfoldable pub strip_answer_delimiters : Bytes → Bytes
strip_answer_delimiters s = strip_rounds answer_open answer_close (length s) s

cut_le : (d : Bytes) (n : ℕ) (s : Bytes) → length (cut d n s) ≤ length s
unfolding cut
cut_le d n [] = omega arith
cut_le d (suc n) (b ∷ s) = omega (arith, cut_le d n s)
cut_le d zero (b ∷ s) = ground (arith, cut_le d (length d - 1) s, cut_le d zero s)

cut_lt : (d s : Bytes) → 0 < length d → contains d s ≡ true → length (cut d zero s) < length s
unfolding cut contains has_prefix
cut_lt [] s some_d h = absurd (omega arith)
cut_lt (a ∷ d) [] some_d h = cc
cut_lt (a ∷ d) (b ∷ s) some_d h = elim (Bool-cases (has_prefix (a ∷ d) (b ∷ s))) [
  | inl here ↦ ground (arith, cut_le (a ∷ d) (length (a ∷ d) - 1) s)
  | inr later ↦ ground (arith, cut_lt (a ∷ d) s some_d)
]

cut_absent : (d s : Bytes) → contains d s ≡ false → cut d zero s ≡ s
unfolding cut contains
cut_absent d [] h = refl
cut_absent d (b ∷ s) h = ground (arith, cut_absent d s)

both_false : (a b : Bool) → (a || b) ≡ false → (a ≡ false) × (b ≡ false)
both_false a b h = ground arith

module _ (opening closing : Bytes) (some_opening : 0 < length opening)
    (some_closing : 0 < length closing) where
  abbrev IsClean : Bytes → Type 0
  IsClean s = (contains opening s ≡ false) × (contains closing s ≡ false)

  empty-IsClean : IsClean []
  unfolding contains has_prefix
  empty-IsClean = (absent opening some_opening, absent closing some_closing)
    where
      absent : (d : Bytes) → 0 < length d → has_prefix d [] ≡ false
      absent [] h = absurd (omega arith)
      absent (a ∷ d) h = refl

  round_lt :
      (s : Bytes)
      → (contains opening s || contains closing s) ≡ true
      → length (cut closing zero (cut opening zero s)) < length s
  round_lt s h = elim (Bool-cases (contains opening s)) [
    | inl opens ↦
        omega (arith, cut_lt opening s some_opening opens, cut_le closing zero (cut opening zero s))
    | inr free ↦ rw (cut_absent opening s free) (cut_lt closing s some_closing (ground arith))
  ]

  strip_rounds-IsClean :
      (n : ℕ) (s : Bytes) → length s ≤ n → IsClean (strip_rounds opening closing n s)
  unfolding strip_rounds
  strip_rounds-IsClean zero [] h = empty-IsClean
  strip_rounds-IsClean zero (b ∷ s) h = absurd (omega arith)
  strip_rounds-IsClean (suc n) s h = elim (Bool-cases (contains opening s || contains closing s)) [
    | inl dirty ↦ rw dirty (
        strip_rounds-IsClean n (cut closing zero (cut opening zero s))
          (omega (arith, round_lt s dirty)))
    | inr clean ↦ rw clean (both_false (contains opening s) (contains closing s) clean)
  ]

  strip_rounds_fixed : (n : ℕ) (s : Bytes) → IsClean s → strip_rounds opening closing n s ≡ s
  unfolding strip_rounds
  strip_rounds_fixed zero s h = refl
  strip_rounds_fixed (suc n) s (opens, closes) = rw (opens, closes) refl

-- No delimiter is left in a stripped text, not even one that the removed pieces put together, so it
-- cannot end the frame of an answer or open another; the loop ends within as many rounds as the text
-- has bytes, and to strip again changes nothing.
pub strip_answer_delimiters_clean :
    (s : Bytes)
    → let t = strip_answer_delimiters s in
      (contains answer_open t ≡ false)
      × (contains answer_close t ≡ false)
      × (strip_answer_delimiters t ≡ t)
unfolding strip_answer_delimiters
strip_answer_delimiters_clean s =
    let t = strip_answer_delimiters s in
    let clean =
      strip_rounds-IsClean answer_open answer_close (omega arith) (omega arith) (length s) s
        (omega arith) in
    (
      clean.0,
      clean.1,
      strip_rounds_fixed answer_open answer_close (omega arith) (omega arith) (length t) t clean,
    )
