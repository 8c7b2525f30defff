-- ===== src/Base/Text.antt =====
-- Python's `str`: the operations that the program uses, over the native texts.
use Prim.Native.Nat.{ℕ, zero, suc, ◌-◌, ◌/◌, ◌%◌, min}
use Prim.Native.Char.{Char, code}
use Prim.Native.String.{String}
use mathlib.Core.Path.{◌≡◌, refl}
use mathlib.Core.Logic.{◌⊎◌}
use mathlib.Core.Bool.{Bool, true, false, ◌&&◌, ◌||◌}
use mathlib.Core.Option.{Option, none, some}
use mathlib.Core.List.{List, [], ◌∷◌}
use native.Mathlib.Omega.{arith}
use text.Mathlib.Text.{◌==◌}
use text.Mathlib.TextEquality.{eq_iff}
use provable_agent_reference.Base.Tests.{nat_eq, leb, if◌then◌else◌}

abbrev pub codes : String → List ℕ
codes String.[] = []
codes (String.◌∷◌ c s) = code c ∷ codes s

-- `s + t`, and what an f-string joins
infixr 65 ◌<>◌
abbrev pub ◌<>◌ : String → String → String
String.[] <> t = t
(String.◌∷◌ c s) <> t = String.◌∷◌ c (s <> t)

-- `len(s)`: the number of characters
abbrev pub count : String → ℕ
count String.[] = 0
count (String.◌∷◌ c s) = suc (count s)

-- `not s`
abbrev pub is_empty : String → Bool
is_empty String.[] = true
is_empty (String.◌∷◌ c s) = false

-- `all(p(c) for c in s)`
abbrev pub all_chars : (ℕ → Bool) → String → Bool
all_chars p String.[] = true
all_chars p (String.◌∷◌ c s) = p (code c) && all_chars p s

-- `s[:n]`
abbrev pub prefix_of : ℕ → String → String
prefix_of zero s = String.[]
prefix_of (suc n) String.[] = String.[]
prefix_of (suc n) (String.◌∷◌ c s) = String.◌∷◌ c (prefix_of n s)

-- `s.split(":", 1)[1]`; `none` where no separator stands in the text (an IndexError)
abbrev pub after_first : ℕ → String → Option String
after_first sep String.[] = none
after_first sep (String.◌∷◌ c s) =
    let rest = after_first sep s in if nat_eq (code c) sep then some s else rest

-- The rest of a text behind a literal prefix.
abbrev pub strip_prefix : String → String → Option String
strip_prefix String.[] s = some s
strip_prefix (String.◌∷◌ c p) String.[] = none
strip_prefix (String.◌∷◌ c p) (String.◌∷◌ d s) =
    let rest = strip_prefix p s in if nat_eq (code c) (code d) then rest else none

-- `x in xs`
abbrev pub member : String → List String → Bool
member x [] = false
member x (y ∷ ys) = x == y || member x ys

-- `set(xs)`, as the items without their repetitions
abbrev pub set_of : List String → List String
set_of [] = []
set_of (x ∷ xs) = let rest = set_of xs in if member x xs then rest else x ∷ rest

pub count-prefix_of : (n : ℕ) (s : String) → count (prefix_of n s) ≡ min n (count s)
count-prefix_of zero s = omega arith
count-prefix_of (suc n) String.[] = omega arith
count-prefix_of (suc n) (String.◌∷◌ c s) = omega (arith, count-prefix_of n s)

pub all_chars-prefix_of :
    (p : ℕ → Bool) (n : ℕ) (s : String) → all_chars p s ≡ true → all_chars p (prefix_of n s) ≡ true
all_chars-prefix_of p zero s h = refl
all_chars-prefix_of p (suc n) String.[] h = refl
all_chars-prefix_of p (suc n) (String.◌∷◌ c s) h = ground (arith, all_chars-prefix_of p n s)

pub text_eq_cases : (s t : String) → (s ≡ t) ⊎ ((s == t) ≡ false)
text_eq_cases s t = ground (arith, eq_iff s t)

pub after_first-append : (s : String) → after_first b':' ("sha256:" <> s) ≡ some s
after_first-append s = refl

abbrev digit_char : ℕ → Char
digit_char d =
    if nat_eq d 0
    then "0"
    else if nat_eq d 1
    then "1"
    else if nat_eq d 2
    then "2"
    else if nat_eq d 3
    then "3"
    else if nat_eq d 4
    then "4"
    else if nat_eq d 5
    then "5"
    else if nat_eq d 6
    then "6"
    else if nat_eq d 7
    then "7"
    else if nat_eq d 8
    then "8"
    else "9"

show_from : ℕ → ℕ → String → String
show_from zero n acc = acc
show_from (suc fuel) n acc =
    let more = show_from fuel (n / 10) (String.◌∷◌ (digit_char (n % 10)) acc) in
    if leb 10 n then more else String.◌∷◌ (digit_char n) acc

-- `str(n)`: at most n + 1 digits
unfoldable pub show : ℕ → String
unfolding show_from
show n = show_from (suc n) n ""

test_show : show 1000 ≡ "1000"
unfolding show
test_show = refl

-- `s[n:]`
abbrev pub drop_chars : ℕ → String → String
drop_chars zero s = s
drop_chars (suc n) String.[] = String.[]
drop_chars (suc n) (String.◌∷◌ c s) = drop_chars n s

-- `s[first:last]`
abbrev pub slice : ℕ → ℕ → String → String
slice first last s = prefix_of (last - first) (drop_chars first s)

-- `s[-n:]`
abbrev pub last_of : ℕ → String → String
last_of n s = drop_chars (count s - n) s
