-- ===== src/Agents/Checkpoint/Cap.antt =====
-- agents/checkpoint/answer.go: CapText and truncateUTF8, which cut a text at a character boundary.
use go_driftlessaf.Base.{
  ◌<◌, ℕ, zero, suc, ◌+◌, ◌≤◌, ◌≡◌, refl, Bool, true, false, ◌||◌, [], ◌∷◌, ◌++◌, arith, inl, inr,
  if◌then◌else◌, ◌==◌, ltb, leb, length, take, length-append, length-take, Bool-cases, leb→le, ◌⊎◌,
  ℤ, pos, pos_part, leb_ℤ,
}
use go_driftlessaf.Agents.Checkpoint.Answer.{
  Bytes, ascii, answer_open, answer_close, has_prefix, contains, strip_answer_delimiters,
  strip_answer_delimiters_clean,
}

-- "…[truncated]", whose first character has three bytes.
abbrev pub truncation_marker : Bytes
truncation_marker = 226 ∷ 128 ∷ 166 ∷ ascii "[truncated]"

-- `utf8.RuneStart(s[i])`, for an index in range.
unfoldable pub rune_start_at : Bytes → ℕ → Bool
rune_start_at [] i = true
rune_start_at (b ∷ s) zero = ltb b 128 || leb 192 b
rune_start_at (b ∷ s) (suc i) = rune_start_at s i

-- The loop that backs off to the start of a character.
unfoldable pub back_off : Bytes → ℕ → ℕ
unfolding rune_start_at
back_off s zero = zero
back_off s (suc end) =
    let rest = back_off s end in if rune_start_at s (suc end) then suc end else rest

unfoldable pub truncate_utf8 : Bytes → ℕ → Bytes
unfolding back_off
truncate_utf8 s max_bytes = if leb (length s) max_bytes then s else take (back_off s max_bytes) s

unfoldable pub cap_text : Bytes → ℤ → Bytes
unfolding truncate_utf8
cap_text s max_bytes =
    if leb_ℤ max_bytes (pos 0) || leb_ℤ (pos (length s)) max_bytes
    then s
    else truncate_utf8 s (pos_part max_bytes) ++ truncation_marker

back_off_le : (s : Bytes) (end : ℕ) → back_off s end ≤ end
unfolding back_off
back_off_le s zero = omega arith
back_off_le s (suc end) = ground (arith, back_off_le s end)

has_prefix-take : (d s : Bytes) (n : ℕ) → has_prefix d s ≡ false → has_prefix d (take n s) ≡ false
unfolding has_prefix
has_prefix-take [] s n h = cc
has_prefix-take (a ∷ d) [] zero h = refl
has_prefix-take (a ∷ d) [] (suc n) h = refl
has_prefix-take (a ∷ d) (b ∷ s) zero h = refl
has_prefix-take (a ∷ d) (b ∷ s) (suc n) h = ground (arith, has_prefix-take d s n)

pub contains-take : (d s : Bytes) (n : ℕ) → contains d s ≡ false → contains d (take n s) ≡ false
unfolding contains
contains-take d [] zero h = h
contains-take d [] (suc n) h = h
contains-take d (b ∷ s) zero h = ground (arith, has_prefix-take d (b ∷ s) zero)
contains-take d (b ∷ s) (suc n) h =
    ground (arith, has_prefix-take d (b ∷ s) (suc n), contains-take d s n)

-- A byte that a text does not have.
abbrev pub lacks : ℕ → Bytes → Bool
lacks m [] = true
lacks m (a ∷ d) = let rest = lacks m d in if a == m then false else rest

has_prefix-append :
    (d p ms : Bytes) (m : ℕ)
    → lacks m d ≡ true
    → has_prefix d p ≡ false
    → has_prefix d (p ++ m ∷ ms) ≡ false
unfolding has_prefix
has_prefix-append [] p ms m l h = cc
has_prefix-append (a ∷ d) [] ms m l h = ground arith
has_prefix-append (a ∷ d) (b ∷ p) ms m l h = ground (arith, has_prefix-append d p ms m)

contains-append :
    (d p ms : Bytes) (m : ℕ)
    → lacks m d ≡ true
    → contains d (m ∷ ms) ≡ false
    → contains d p ≡ false
    → contains d (p ++ m ∷ ms) ≡ false
unfolding contains
contains-append d [] ms m l marker h = marker
contains-append d (b ∷ p) ms m l marker h =
    ground (arith, has_prefix-append d (b ∷ p) ms m, contains-append d p ms m)

truncate_clean :
    (d s : Bytes) (n : ℕ)
    → lacks 226 d ≡ true
    → contains d truncation_marker ≡ false
    → contains d s ≡ false
    → contains d (truncate_utf8 s n ++ truncation_marker) ≡ false
unfolding truncate_utf8
truncate_clean d s n l marker h =
    contains-append d (truncate_utf8 s n) (128 ∷ 166 ∷ ascii "[truncated]") 226 l marker
      (elim (Bool-cases (leb (length s) n)) [
        | inl short ↦ rw short h
        | inr long ↦ rw long (contains-take d s (back_off s n) h)
      ])

pub cap_text_clean :
    (d s : Bytes) (max_bytes : ℤ)
    → lacks 226 d ≡ true
    → contains d truncation_marker ≡ false
    → contains d s ≡ false
    → contains d (cap_text s max_bytes) ≡ false
unfolding cap_text
cap_text_clean d s max_bytes l marker h =
    elim (Bool-cases (leb_ℤ max_bytes (pos 0) || leb_ℤ (pos (length s)) max_bytes)) [
      | inl whole ↦ rw whole h
      | inr cut ↦ rw cut (truncate_clean d s (pos_part max_bytes) l marker h)
    ]

truncate_length : (s : Bytes) (n : ℕ) → length (truncate_utf8 s n) ≤ n
unfolding truncate_utf8
truncate_length s n = elim (Bool-cases (leb (length s) n)) [
  | inl short ↦ rw short (leb→le (length s) n short)
  | inr long ↦ rw long (omega (arith, length-take (back_off s n) s, back_off_le s n))
]

length-cap_text :
    (s : Bytes) (max_bytes : ℤ)
    → (cap_text s max_bytes ≡ s)
      ⊎ (length (cap_text s max_bytes) ≤ pos_part max_bytes + length truncation_marker)
unfolding cap_text
length-cap_text s max_bytes =
    elim (Bool-cases (leb_ℤ max_bytes (pos 0) || leb_ℤ (pos (length s)) max_bytes)) [
      | inl whole ↦ rw whole (inl refl)
      | inr cut ↦ rw cut (
          inr (
            omega (
              arith,
              length-append (truncate_utf8 s (pos_part max_bytes)) truncation_marker,
              truncate_length s (pos_part max_bytes),
            )))
    ]

-- Capping a stripped text brings no delimiter back: neither the cut nor the marker, alone or
-- together, contains one. The result is the text itself, or at most the marker longer than the cap.
pub cap_stripped :
    (s : Bytes) (max_bytes : ℤ)
    → let t = cap_text (strip_answer_delimiters s) max_bytes in
      (contains answer_open t ≡ false)
      × (contains answer_close t ≡ false)
      × ((t ≡ strip_answer_delimiters s)
          ⊎ (length t ≤ pos_part max_bytes + length truncation_marker))
unfolding contains has_prefix
cap_stripped s max_bytes =
    let (opens, closes, fixed) = strip_answer_delimiters_clean s in
    (
      cap_text_clean answer_open (strip_answer_delimiters s) max_bytes refl refl opens,
      cap_text_clean answer_close (strip_answer_delimiters s) max_bytes refl refl closes,
      length-cap_text (strip_answer_delimiters s) max_bytes,
    )

pub length-cap_text_some :
    (s : Bytes) (max_bytes : ℤ) → 0 < length s → 0 < length (cap_text s max_bytes)
unfolding cap_text
length-cap_text_some s max_bytes some_s =
    elim (Bool-cases (leb_ℤ max_bytes (pos 0) || leb_ℤ (pos (length s)) max_bytes)) [
      | inl whole ↦ rw whole some_s
      | inr cut ↦
          rw cut
            (omega (arith, length-append (truncate_utf8 s (pos_part max_bytes)) truncation_marker))
    ]
