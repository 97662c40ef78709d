-- ===== src/Agents/Checkpoint/Jsonlstore/Lines.antt =====
-- agents/checkpoint/jsonlstore/jsonlstore.go: the lines of the log, and what replay reads from them.
use mathlib.Core.List.{append_assoc, append-nil}
use go_driftlessaf.Base.{
  ℕ, ◌≡◌, refl, ◌∙◌, sym, ap, false, some, List, [], ◌∷◌, ◌++◌, ◌==◌, Bytes, All,
}
use go_driftlessaf.Agents.Checkpoint.Jsonlstore.{
  Record, Codec, Live, newline, trim_space, read_lines, apply, replay_lines, replay_line,
}

-- JSON puts a record on one line, without space at its ends, and reads it back.
pub record IsStored (c : Codec) (r : Record) : Type 0 where
  pub one_line : All (λ b. (b == newline) ≡ false) (c.marshal r)
  pub trimmed : trim_space (c.marshal r) ≡ c.marshal r
  pub first : ℕ
  pub others : Bytes
  pub starts : c.marshal r ≡ first ∷ others
  pub decoded : c.unmarshal (c.marshal r) ≡ some r

-- The file with these records.
unfoldable pub render : Codec → List Record → Bytes
render c [] = []
render c (r ∷ rs) = c.marshal r ++ newline ∷ render c rs

unfoldable pub apply_all : List Record → Live → Live
apply_all [] l = l
apply_all (r ∷ rs) l = apply_all rs (apply r l)

module _ (c : Codec) where
  pub render-append : (rs qs : List Record) → render c (rs ++ qs) ≡ render c rs ++ render c qs
  unfolding render
  render-append [] qs = refl
  render-append (r ∷ rs) qs =
      ap (λ t. c.marshal r ++ newline ∷ t) (render-append rs qs)
      ∙ sym (append_assoc (c.marshal r) (newline ∷ render c rs) (render c qs))

  read_line :
      (line s rest : Bytes)
      → All (λ b. (b == newline) ≡ false) s
      → read_lines line (s ++ newline ∷ rest) ≡ (line ++ s) ∷ read_lines [] rest
  unfolding read_lines
  read_line line [] rest h = ap (λ l. l ∷ read_lines [] rest) (sym (append-nil line))
  read_line line (b ∷ s) rest h = rw h.0 (
      read_line (line ++ b ∷ []) s rest h.1
      ∙ ap (λ l. l ∷ read_lines [] rest) (append_assoc line (b ∷ []) s))

  replay_line-IsStored :
      (r : Record) (l : Live)
      → IsStored c r
      → replay_line c (trim_space (c.marshal r)) l ≡ some (apply r l)
  unfolding replay_line
  replay_line-IsStored r l h =
      let read : c.unmarshal (h.first ∷ h.others) ≡ some r =
        ap c.unmarshal (sym h.starts) ∙ h.decoded in
      rw (h.trimmed, h.starts, read)

  pub replay_render :
      (rs : List Record) (l : Live)
      → All (IsStored c) rs
      → replay_lines c (read_lines [] (render c rs)) l ≡ some (apply_all rs l)
  unfolding replay_lines render apply_all read_lines trim_space
  replay_render [] l h = refl
  replay_render (r ∷ rs) l h =
      rw (read_line [] (c.marshal r) (render c rs) h.0.one_line, replay_line-IsStored r l h.0)
        (replay_render rs (apply r l) h.1)

pub apply_all-append :
    (rs qs : List Record) (l : Live) → apply_all (rs ++ qs) l ≡ apply_all qs (apply_all rs l)
unfolding apply_all
apply_all-append [] qs l = refl
apply_all-append (r ∷ rs) qs l = apply_all-append rs qs (apply r l)
