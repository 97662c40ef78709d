-- ===== src/Base/Compare.antt =====
-- `cmp.Compare` and the comparison functions that `slices.SortFunc` takes: a negative number, zero or
-- a positive one.
use Prim.Native.String.{String}
use mathlib.Core.Path.{◌≡◌}
use mathlib.Core.Bool.{true, false}
use native.Mathlib.Omega.{arith}
use go_driftlessaf.Base.Tests.{if◌then◌else◌}
use go_driftlessaf.Base.Text.{ascii, less, less_asym, less_total}
use go_driftlessaf.Base.Int.{ℤ, pos, negsuc, pos_part, neg_part, ltb_ℤ, eqb_ℤ, ◌≤ℤ◌}

-- `cmp.Compare` on strings. The code points of two texts compare as their bytes in UTF-8 do.
unfoldable pub compare_text : String → String → ℤ
compare_text s t =
    if less (ascii s) (ascii t) then negsuc 0 else if less (ascii t) (ascii s) then pos 1 else pos 0

-- `cmp.Compare` on integers.
unfoldable pub compare_int : ℤ → ℤ → ℤ
compare_int a b = if ltb_ℤ a b then negsuc 0 else if ltb_ℤ b a then pos 1 else pos 0

-- `if c != 0 { return c }; return d`
abbrev pub or_else : ℤ → ℤ → ℤ
or_else c d = if eqb_ℤ c (pos 0) then d else c

-- A function that compares as an order does, in which distinct elements may be equal.
pub record IsComparison {ℓ} {A : Type ℓ} (c : A → A → ℤ) : Type ℓ where
  pub opposite : (x y : A) → pos_part (c y x) ≡ neg_part (c x y)
  pub chain : (x y z : A) → c x y ≤ℤ pos 0 → c y z ≤ℤ pos 0 → c x z ≤ℤ pos 0

pub compare_text-IsComparison : IsComparison compare_text
unfolding compare_text
compare_text-IsComparison = record {
  opposite = λ s t. ground (arith, less_asym (ascii s) (ascii t), less_asym (ascii t) (ascii s));
  chain = λ s t u h k. ground (
    arith,
    less_total (ascii u) (ascii t) (ascii s),
    less_asym (ascii s) (ascii t),
    less_asym (ascii t) (ascii u),
  );
}

pub compare_int-IsComparison : IsComparison compare_int
unfolding compare_int
compare_int-IsComparison = record {
  opposite = λ a b. ground arith;
  chain = λ a b c h k. ground arith;
}

pub on-IsComparison {ℓ κ} :
    {A : Type ℓ} {B : Type κ} (f : B → A) (c : A → A → ℤ)
    → IsComparison c
    → IsComparison (λ x y. c (f x) (f y))
on-IsComparison f c h = record {
  opposite = λ x y. h.opposite (f x) (f y);
  chain = λ x y z. h.chain (f x) (f y) (f z);
}

module _ {ℓ} {A : Type ℓ} (c d : A → A → ℤ) (hc : IsComparison c) (hd : IsComparison d) where
  pub or_else-IsComparison : IsComparison (λ x y. or_else (c x y) (d x y))
  or_else-IsComparison = record {
    opposite =
        λ x y. ground (arith, hc.opposite x y, hc.opposite y x, hd.opposite x y, hd.opposite y x);
    chain = λ x y z h k. ground (
      arith,
      hc.opposite x y,
      hc.opposite y x,
      hc.opposite y z,
      hc.opposite z y,
      hc.opposite x z,
      hc.opposite z x,
      hc.chain x y z,
      hc.chain z x y,
      hc.chain y z x,
      hd.chain x y z,
    );
  }

module _ {ℓ} {A : Type ℓ} {c : A → A → ℤ} (h : IsComparison c) where
  pub comparison_asym : (x y : A) → ltb_ℤ (c x y) (pos 0) ≡ true → ltb_ℤ (c y x) (pos 0) ≡ false
  comparison_asym x y e = ground (arith, h.opposite x y, h.opposite y x)

  pub comparison_below :
      (x y z : A)
      → ltb_ℤ (c x y) (pos 0) ≡ true
      → ltb_ℤ (c z y) (pos 0) ≡ false
      → ltb_ℤ (c z x) (pos 0) ≡ false
  comparison_below x y z e f = ground (
    arith,
    h.opposite x y,
    h.opposite y x,
    h.opposite z y,
    h.opposite y z,
    h.opposite z x,
    h.opposite x z,
    h.chain x y z,
  )
