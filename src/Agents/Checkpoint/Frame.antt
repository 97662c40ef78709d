-- ===== src/Agents/Checkpoint/Frame.antt =====
-- agents/checkpoint/answer.go: FrameAnswer, with strings.TrimSpace, over bytes.
use go_driftlessaf.Base.{
  ℕ, zero, suc, ◌-◌, ◌<◌, ◌≡◌, refl, false, ◌&&◌, List, [], ◌∷◌, ◌++◌, arith, inl, inr,
  if◌then◌else◌, ◌==◌, leb, length, take, drop, Bool-cases, ℤ,
}
use go_driftlessaf.Agents.Checkpoint.Answer.{
  Bytes, ascii, answer_open, answer_close, has_prefix, contains, strip_answer_delimiters,
  strip_answer_delimiters_clean,
}
use go_driftlessaf.Agents.Checkpoint.Cap.{
  cap_text, contains-take, cap_text_clean, length-cap_text_some,
}

-- The characters that Unicode calls white space, in UTF-8.
abbrev white_space : List Bytes
white_space =
    (9 ∷ [])
    ∷ (10 ∷ [])
    ∷ (11 ∷ [])
    ∷ (12 ∷ [])
    ∷ (13 ∷ [])
    ∷ (32 ∷ [])
    ∷ (194 ∷ 133 ∷ [])
    ∷ (194 ∷ 160 ∷ [])
    ∷ (225 ∷ 154 ∷ 128 ∷ [])
    ∷ (226 ∷ 128 ∷ 128 ∷ [])
    ∷ (226 ∷ 128 ∷ 129 ∷ [])
    ∷ (226 ∷ 128 ∷ 130 ∷ [])
    ∷ (226 ∷ 128 ∷ 131 ∷ [])
    ∷ (226 ∷ 128 ∷ 132 ∷ [])
    ∷ (226 ∷ 128 ∷ 133 ∷ [])
    ∷ (226 ∷ 128 ∷ 134 ∷ [])
    ∷ (226 ∷ 128 ∷ 135 ∷ [])
    ∷ (226 ∷ 128 ∷ 136 ∷ [])
    ∷ (226 ∷ 128 ∷ 137 ∷ [])
    ∷ (226 ∷ 128 ∷ 138 ∷ [])
    ∷ (226 ∷ 128 ∷ 168 ∷ [])
    ∷ (226 ∷ 128 ∷ 169 ∷ [])
    ∷ (226 ∷ 128 ∷ 175 ∷ [])
    ∷ (226 ∷ 129 ∷ 159 ∷ [])
    ∷ (227 ∷ 128 ∷ 128 ∷ [])
    ∷ []

-- How many bytes of white space the text starts with: one character's, or none.
leading : List Bytes → Bytes → ℕ
leading [] s = 0
leading (w ∷ ws) s = let rest = leading ws s in if has_prefix w s then length w else rest

-- How many bytes of white space the first `n` bytes of the text end with.
trailing : List Bytes → Bytes → ℕ → ℕ
trailing [] s n = 0
trailing (w ∷ ws) s n =
    let rest = trailing ws s n in
    if leb (length w) n && has_prefix w (drop (n - length w) s) then length w else rest

trim_left : ℕ → Bytes → Bytes
unfolding leading
trim_left zero s = s
trim_left (suc rounds) s =
    let k = leading white_space s in
    let rest = trim_left rounds (drop k s) in if k == 0 then s else rest

trim_end : ℕ → Bytes → ℕ → ℕ
unfolding trailing
trim_end zero s n = n
trim_end (suc rounds) s n =
    let k = trailing white_space s n in
    let rest = trim_end rounds s (n - k) in if k == 0 then n else rest

-- strings.TrimSpace
unfoldable pub trim_space : Bytes → Bytes
unfolding trim_left trim_end
trim_space s = let t = trim_left (length s) s in take (trim_end (length t) t (length t)) t

abbrev pub empty_answer_placeholder : Bytes
empty_answer_placeholder = ascii "(the human did not provide an answer)"

frame_body : Bytes → ℤ → Bytes
frame_body [] max_bytes = empty_answer_placeholder
frame_body (b ∷ s) max_bytes = cap_text (b ∷ s) max_bytes

abbrev pub framed : Bytes → Bytes
framed body = answer_open ++ 10 ∷ (body ++ 10 ∷ answer_close)

-- FrameAnswer.
unfoldable pub frame_answer : Bytes → ℤ → Bytes
unfolding frame_body
frame_answer s max_bytes =
    framed (frame_body (trim_space (strip_answer_delimiters (trim_space s))) max_bytes)

contains-drop : (d s : Bytes) (n : ℕ) → contains d s ≡ false → contains d (drop n s) ≡ false
unfolding contains
contains-drop d s zero h = h
contains-drop d [] (suc n) h = h
contains-drop d (b ∷ s) (suc n) h = ground (arith, contains-drop d s n)

contains-trim_left :
    (d : Bytes) (n : ℕ) (s : Bytes) → contains d s ≡ false → contains d (trim_left n s) ≡ false
unfolding trim_left
contains-trim_left d zero s h = h
contains-trim_left d (suc n) s h = elim (Bool-cases (leading white_space s == 0)) [
  | inl stop ↦ rw stop h
  | inr more ↦ rw more (
      contains-trim_left d n (drop (leading white_space s) s)
        (contains-drop d s (leading white_space s) h))
]

contains-trim_space : (d s : Bytes) → contains d s ≡ false → contains d (trim_space s) ≡ false
unfolding trim_space
contains-trim_space d s h =
    let t = trim_left (length s) s in
    contains-take d t (trim_end (length t) t (length t)) (contains-trim_left d (length s) s h)

frame_body_clean :
    (d s : Bytes) (max_bytes : ℤ)
    → contains d empty_answer_placeholder ≡ false
    → (contains d s ≡ false → contains d (cap_text s max_bytes) ≡ false)
    → contains d s ≡ false
    → contains d (frame_body s max_bytes) ≡ false
unfolding frame_body
frame_body_clean d [] max_bytes placeholder capped h = placeholder
frame_body_clean d (b ∷ s) max_bytes placeholder capped h = capped h

frame_body_some : (s : Bytes) (max_bytes : ℤ) → 0 < length (frame_body s max_bytes)
unfolding frame_body
frame_body_some [] max_bytes = omega arith
frame_body_some (b ∷ s) max_bytes = length-cap_text_some (b ∷ s) max_bytes (omega arith)

-- A framed answer is the opening delimiter, one body and the closing delimiter, whatever a person
-- wrote: the body is not empty and no delimiter occurs in it, so that nothing of the answer stands
-- outside the frame.
pub frame_answer_sealed :
    (s : Bytes) (max_bytes : ℤ)
    → (body : Bytes) × (frame_answer s max_bytes ≡ framed body)
      × (0 < length body)
      × (contains answer_open body ≡ false)
      × (contains answer_close body ≡ false)
unfolding frame_answer contains has_prefix
frame_answer_sealed s max_bytes =
    let stripped = strip_answer_delimiters (trim_space s) in
    let (opens, closes, fixed) = strip_answer_delimiters_clean (trim_space s) in
    let t = trim_space stripped in
    (
      frame_body t max_bytes,
      refl,
      frame_body_some t max_bytes,
      frame_body_clean answer_open t max_bytes refl
          (cap_text_clean answer_open t max_bytes refl refl)
          (contains-trim_space answer_open stripped opens),
      frame_body_clean answer_close t max_bytes refl
          (cap_text_clean answer_close t max_bytes refl refl)
          (contains-trim_space answer_close stripped closes),
    )
