-- ===== src/Manifest/Text.antt =====
-- Texts as the lists of their bytes, with what quantities use of the standard library: `strip_suffix`,
-- `split_once` and the parsing of decimal numbers.
pub mod Digits
use podmesh.Prelude.{
  false, not, String, true, ℕ, ◌+◌, ◌-◌, ◌*◌, Bool, ◌&&◌, List, [], ◌∷◌, ◌==◌, list_eq, nat_eq,
  Option, none, some, leb, all, if◌then◌else◌, Result, ok, err, ensure, ◌>>=◌, ◌>>◌,
}

abbrev pub Bytes : Type 0
Bytes = List ℕ

abbrev pub is_digit : ℕ → Bool
is_digit b = leb 48 b && leb b 57

pub cons_result : ℕ → Option Bytes → Option Bytes
cons_result x none = none
cons_result x (some rest) = some (x ∷ rest)

unfoldable pub strip_suffix : Bytes → Bytes → Option Bytes
unfolding cons_result
strip_suffix suffix [] = if [] == suffix then some [] else none
strip_suffix suffix (x ∷ xs) =
    let rest = strip_suffix suffix xs in if (x ∷ xs) == suffix then some [] else cons_result x rest

pub cons_first : ℕ → Option (Bytes × Bytes) → Option (Bytes × Bytes)
cons_first x none = none
cons_first x (some (first, second)) = some (x ∷ first, second)

-- At the first separator.
unfoldable pub split_once : ℕ → Bytes → Option (Bytes × Bytes)
unfolding cons_first
split_once separator [] = none
split_once separator (x ∷ xs) =
    let rest = split_once separator xs in
    if x == separator then some ([], xs) else cons_first x rest

-- The number that decimal digits write, after those of a first part.
unfoldable pub value_of : ℕ → Bytes → ℕ
value_of n [] = n
value_of n (d ∷ ds) = value_of (n * 10 + (d - 48)) ds

-- `str::parse` at an unsigned type: a plus sign may stand before the digits.
unfoldable pub strip_plus : Bytes → Bytes
strip_plus [] = []
strip_plus (x ∷ xs) = if x == b'+' then xs else x ∷ xs

abbrev pub is_blank : Bytes → Bool
is_blank [] = true
is_blank (x ∷ xs) = false

unfoldable pub parse_number : ℕ → String → Bytes → Result ℕ
unfolding strip_plus value_of
parse_number largest message text =
    let digits = strip_plus text in
    if not (is_blank digits) && all is_digit digits && leb (value_of 0 digits) largest
    then ok (value_of 0 digits)
    else err message
