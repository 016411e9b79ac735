-- ===== src/Prelude/Text.antt =====
-- Text as a list of code points, and the string functions of JavaScript that the program uses on
-- it: `trim`, `toString(radix)` of a non-negative integer, and reading digits back.
pub mod Digits
use Prim.Native.Nat.{ℕ, zero, suc, ◌+◌, ◌-◌, ◌*◌, ◌/◌, ◌%◌}
use mathlib.Core.Bool.{Bool, true, false, ◌&&◌, ◌||◌}
use mathlib.Core.Option.{Option, none, some}
use mathlib.Core.List.{List, [], ◌∷◌}
use Prim.Native.Char.{code}
use Prim.Native.String.{String}
use keri_ts.Prelude.Tests.{ltb, leb, ◌==◌, if◌then◌else◌}

abbrev pub Text : Type 0
Text = List ℕ

-- The code points of a literal.
abbrev pub codes : String → Text
codes String.[] = []
codes (String.◌∷◌ c s) = code c ∷ codes s

-- The white space and line terminators that `trim` removes.
unfoldable pub is_space : ℕ → Bool
is_space c =
    (leb 9 c && leb c 13)
    || c == 32
    || c == 160
    || c == 5760
    || (leb 8192 c && leb c 8202)
    || c == 8232
    || c == 8233
    || c == 8239
    || c == 8287
    || c == 12288
    || c == 65279

unfoldable pub trim_start : Text → Text
unfolding is_space
trim_start [] = []
trim_start (c ∷ s) = if is_space c then trim_start s else c ∷ s

-- `c` before a trimmed rest: a space goes with an empty rest only.
unfoldable pub attach : ℕ → Text → Text
unfolding is_space
attach c [] = if is_space c then [] else c ∷ []
attach c (d ∷ r) = c ∷ d ∷ r

unfoldable pub trim_end : Text → Text
unfolding attach
trim_end [] = []
trim_end (c ∷ s) = attach c (trim_end s)

unfoldable pub trim : Text → Text
unfolding trim_start trim_end
trim s = trim_end (trim_start s)

-- `text.startsWith("-")`, and what follows the sign
unfoldable pub minus : Text → Bool × Text
minus [] = (false, [])
minus (c ∷ s) = if c == b'-' then (true, s) else (false, c ∷ s)

-- The text before and after the first `sep`.
unfoldable pub split_at : ℕ → Text → Option (Text × Text)
split_at sep [] = none
split_at sep (c ∷ s) =
    let rest : Option (Text × Text) = elim (split_at sep s) [
      | none ↦ none
      | some (before, after) ↦ some (c ∷ before, after)
    ] in
    if c == sep then some ([], s) else rest

abbrev pub digit_char : ℕ → ℕ
digit_char d = if ltb d 10 then 48 + d else 87 + d

-- The value of a digit, in either case.
unfoldable pub digit_value : ℕ → Option ℕ
digit_value c =
    if leb 48 c && leb c 57
    then some (c - 48)
    else if leb 97 c && leb c 102
    then some (c - 87)
    else if leb 65 c && leb c 70
    then some (c - 55)
    else none

-- The digits of `n`, the last one first found; `fuel` bounds their number.
unfoldable pub emit : ℕ → ℕ → ℕ → Text → Text
emit zero radix n out = out
emit (suc fuel) radix n out =
    let rest = emit fuel radix (n / radix) (digit_char (n % radix) ∷ out) in
    if ltb n radix then digit_char n ∷ out else rest

-- `n.toString(radix)`
unfoldable pub to_string : ℕ → ℕ → Text
unfolding emit
to_string radix n = emit (suc n) radix n []

unfoldable pub scan : ℕ → Text → ℕ → Option ℕ
scan radix [] n = some n
scan radix (c ∷ s) n = elim (digit_value c) [
  | none ↦ none
  | some d ↦ if ltb d radix then scan radix s (n * radix + d) else none
]

-- One or more digits and nothing else.
unfoldable pub parse_digits : ℕ → Text → Option ℕ
unfolding scan digit_value
parse_digits radix [] = none
parse_digits radix (c ∷ s) = scan radix (c ∷ s) 0
