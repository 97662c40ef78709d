-- ===== src/Store/Blob/Listing.antt =====
-- List of store/blob/mem.go: one page of the objects with a prefix, by name.
use Prim.Native.Nat.{min}
use go_driftlessaf.Base.{
  ℕ, suc, ◌+◌, ◌≤◌, String, Bool, true, false, Option, none, some, List, [], ◌∷◌, map,
  if◌then◌else◌, ltb, length, take, drop, keep, sort, lookup, str_eq, ℤ, pos, pos_part, leb_ℤ,
  ascii, less, Bytes, length-take, length-map, arith,
}
use go_driftlessaf.Store.Blob.{Gen, MemObject, Mem}

pub record Object : Type 0 where
  pub name : String
  pub gen : Gen

pub record Page : Type 0 where
  pub objects : List Object
  pub cursor : String

abbrev pub default_list_limit : ℕ
default_list_limit = 100

-- strings.HasPrefix
unfoldable pub has_prefix : Bytes → Bytes → Bool
has_prefix [] t = true
has_prefix (a ∷ s) [] = false
has_prefix (a ∷ s) (b ∷ t) =
    let rest = has_prefix s t in if ltb a b then false else if ltb b a then false else rest

abbrev pub name_before : String → String → Bool
name_before s t = less (ascii s) (ascii t)

-- The names with the prefix, sorted.
unfoldable pub names_of : String → Mem → List String
names_of prefix m = sort name_before (
    keep (λ n. has_prefix (ascii prefix) (ascii n))
      (map (λ (e : String × MemObject). e.0) m.objects))

-- The index behind a cursor in a sorted slice, as slices.BinarySearch finds it.
unfoldable pub behind : String → List String → ℕ
behind cursor [] = 0
behind cursor (n ∷ ns) =
    let rest = behind cursor ns in
    if name_before n cursor then suc rest else if str_eq n cursor then 1 else 0

abbrev gen_of : Option MemObject → Gen
gen_of none = 0
gen_of (some o) = o.gen

abbrev entry : Mem → String → Object
entry m n = record { name = n; gen = gen_of (lookup n m.objects) }

-- The last element, which the caller knows to be there.
unfoldable pub last_of : String → List String → String
last_of d [] = d
last_of d (n ∷ ns) = last_of n ns

-- List
unfoldable pub list : String → ℤ → String → Mem → Page
list prefix limit cursor m =
    let bound = if leb_ℤ limit (pos 0) then default_list_limit else pos_part limit in
    let names = names_of prefix m in
    let start = if str_eq cursor "" then 0 else behind cursor names in
    let shown = take bound (drop start names) in
    let last = min (start + bound) (length names) in
    record {
      objects = map (entry m) shown;
      cursor = if ltb last (length names) then last_of "" shown else "";
    }

-- A page has at most the objects that the limit allows, 100 if it allows none.
pub length-list :
    (prefix : String) (limit : ℤ) (cursor : String) (m : Mem)
    → length (list prefix limit cursor m).objects
      ≤ (if leb_ℤ limit (pos 0) then default_list_limit else pos_part limit)
unfolding list
length-list prefix limit cursor m =
    let bound = if leb_ℤ limit (pos 0) then default_list_limit else pos_part limit in
    let names = names_of prefix m in
    let rest = drop (if str_eq cursor "" then 0 else behind cursor names) names in
    omega (arith, length-map (entry m) (take bound rest), length-take bound rest)
