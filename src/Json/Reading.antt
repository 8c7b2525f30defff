-- ===== src/Json/Reading.antt =====
-- Reading back what Json/Print writes, one character or one number at a time.
use text.Mathlib.TextEquality.{Char-path}
use provable_agent_reference.Base.{
  ℕ, zero, suc, ◌+◌, ◌-◌, ◌*◌, ◌/◌, ◌%◌, ◌<◌, ◌≡◌, refl, ap, ◌∙◌, sym, Bool, true, false, ◌&&◌,
  ◌||◌, String, List, [], ◌∷◌, ltb, leb, nat_eq, Bool-cases, ltb→lt, inl, inr, if◌then◌else◌, code,
  arith,
}
use provable_agent_reference.Json.{ℤ, pos, negsuc}
use provable_agent_reference.Json.Print.{escape_char, escape, quote, digits, decimal, print_int}

abbrev pub is_digit : ℕ → Bool
is_digit c = leb b'0' c && leb c b'9'

-- The text does not begin with a digit.
abbrev pub Stops : List ℕ → Type 0
Stops [] = Unit
Stops (c ∷ cs) = is_digit c ≡ false

read_digits : ℕ → List ℕ → ℕ × List ℕ
read_digits n [] = (n, [])
read_digits n (c ∷ cs) =
    let rest = read_digits (n * 10 + (c - b'0')) cs in if is_digit c then rest else (n, c ∷ cs)

read_digits-Stops : (n : ℕ) (rest : List ℕ) → Stops rest → read_digits n rest ≡ (n, rest)
unfolding read_digits
read_digits-Stops n [] h = refl
read_digits-Stops n (c ∷ cs) h = ground arith

read_digits-cons :
    (n d : ℕ) (rest : List ℕ)
    → d < 10
    → read_digits n ((b'0' + d) ∷ rest) ≡ read_digits (n * 10 + d) rest
unfolding read_digits
read_digits-cons n d rest h = ground arith

read_digits-digits :
    (fuel n : ℕ) (rest : List ℕ)
    → n < fuel
    → read_digits 0 (digits fuel n rest) ≡ read_digits n rest
unfolding digits
read_digits-digits zero n rest h = elim h [ ]
read_digits-digits (suc fuel) n rest h = elim (Bool-cases (ltb n 10)) [
  | inl small ↦
      rw small
        (read_digits-cons 0 n rest (ltb→lt n 10 small) ∙ ap (λ k. read_digits k rest) (omega arith))
  | inr large ↦ rw large (
      read_digits-digits fuel (n / 10) ((b'0' + n % 10) ∷ rest) (ground arith)
      ∙ read_digits-cons (n / 10) (n % 10) rest (omega arith)
      ∙ ap (λ k. read_digits k rest) (omega arith))
]

pub decimal-injective :
    (n m : ℕ) (r s : List ℕ) → Stops r → Stops s → decimal n r ≡ decimal m s → (n ≡ m) × (r ≡ s)
unfolding decimal
decimal-injective n m r s hr hs h =
    let read = read_digits-digits (suc n) n r (omega arith) in
    let read' = read_digits-digits (suc m) m s (omega arith) in
    let e : ◌≡◌ {A = ℕ × List ℕ} (n, r) (m, s) =
      sym (read ∙ read_digits-Stops n r hr)
      ∙ ap (read_digits 0) h
      ∙ read'
      ∙ read_digits-Stops m s hs in
    (ap (λ p. p.0) e, ap (λ p. p.1) e)

hex_value : ℕ → ℕ
hex_value c = if leb c b'9' then c - b'0' else c - 87

unescape_hex : List ℕ → ℕ × List ℕ
unescape_hex (a ∷ b ∷ h ∷ l ∷ cs) = (hex_value h * 16 + hex_value l, cs)
unescape_hex _ = (0, [])

-- The character behind a backslash.
unescape : List ℕ → ℕ × List ℕ
unfolding unescape_hex hex_value
unescape (c ∷ cs) =
    if nat_eq c b'n'
    then (10, cs)
    else if nat_eq c b'r'
    then (13, cs)
    else if nat_eq c b't'
    then (9, cs)
    else if nat_eq c b'f'
    then (12, cs)
    else if nat_eq c b'b'
    then (8, cs)
    else if nat_eq c b'u'
    then unescape_hex cs
    else (c, cs)
unescape [] = (0, [])

read_char : List ℕ → ℕ × List ℕ
unfolding unescape
read_char [] = (0, [])
read_char (c ∷ cs) = if nat_eq c 92 then unescape cs else (c, cs)

read_char-escape_char : (c : ℕ) (rest : List ℕ) → read_char (escape_char c rest) ≡ (c, rest)
unfolding read_char escape_char
read_char-escape_char c rest = ground arith

escape_char-ne-quote : (c : ℕ) (r s : List ℕ) → escape_char c r ≡ b'"' ∷ s → ⊥
unfolding escape_char
escape_char-ne-quote c r s h = ground arith

escape-injective :
    (s t : String) (r q : List ℕ) → escape s (b'"' ∷ r) ≡ escape t (b'"' ∷ q) → (s ≡ t) × (r ≡ q)
unfolding escape
escape-injective String.[] String.[] r q h = (refl, cc)
escape-injective String.[] (String.◌∷◌ d t) r q h =
    absurd (escape_char-ne-quote (code d) (escape t (b'"' ∷ q)) r (sym h))
escape-injective (String.◌∷◌ c s) String.[] r q h =
    absurd (escape_char-ne-quote (code c) (escape s (b'"' ∷ r)) q h)
escape-injective (String.◌∷◌ c s) (String.◌∷◌ d t) r q h =
    let e : ◌≡◌ {A = ℕ × List ℕ} (code c, escape s (b'"' ∷ r)) (code d, escape t (b'"' ∷ q)) =
      sym (read_char-escape_char (code c) _) ∙ ap read_char h ∙ read_char-escape_char (code d) _ in
    let (tails, rests) = escape-injective s t r q (ap (λ p. p.1) e) in
    (λ i. String.◌∷◌ (Char-path c d (ap (λ p. p.0) e) i) (tails i), rests)

pub quote-injective : (s t : String) (r q : List ℕ) → quote s r ≡ quote t q → (s ≡ t) × (r ≡ q)
unfolding quote
quote-injective s t r q h = escape-injective s t r q cc

-- Which constructor wrote a text, by its first character.
abbrev pub head_kind : List ℕ → ℕ
head_kind [] = 0
head_kind (c ∷ cs) =
    if nat_eq c b'n'
    then 1
    else if nat_eq c b't' || nat_eq c b'f'
    then 2
    else if is_digit c || nat_eq c b'-'
    then 3
    else if nat_eq c b'"'
    then 4
    else if nat_eq c b'['
    then 5
    else if nat_eq c b'{'
    then 6
    else 0

digits-kind : (fuel n : ℕ) (rest : List ℕ) → n < fuel → head_kind (digits fuel n rest) ≡ 3
unfolding digits
digits-kind zero n rest h = elim h [ ]
digits-kind (suc fuel) n rest h = elim (Bool-cases (ltb n 10)) [
  | inl small ↦ rw small (ground arith)
  | inr large ↦ rw large (digits-kind fuel (n / 10) ((b'0' + n % 10) ∷ rest) (ground arith))
]

pub print_int-kind : (n : ℤ) (rest : List ℕ) → head_kind (print_int n rest) ≡ 3
unfolding print_int
print_int-kind (pos n) rest = digits-kind (suc n) n rest (omega arith)
print_int-kind (negsuc n) rest = refl

abbrev head_is_digit : List ℕ → Bool
head_is_digit [] = false
head_is_digit (c ∷ cs) = is_digit c

digits-head_is_digit :
    (fuel n : ℕ) (rest : List ℕ) → n < fuel → head_is_digit (digits fuel n rest) ≡ true
unfolding digits
digits-head_is_digit zero n rest h = elim h [ ]
digits-head_is_digit (suc fuel) n rest h = elim (Bool-cases (ltb n 10)) [
  | inl small ↦ rw small (ground arith)
  | inr large ↦
      rw large (digits-head_is_digit fuel (n / 10) ((b'0' + n % 10) ∷ rest) (ground arith))
]

decimal-ne-minus : (n : ℕ) (r s : List ℕ) → decimal n r ≡ b'-' ∷ s → ⊥
unfolding decimal
decimal-ne-minus n r s h = cc (digits-head_is_digit (suc n) n r (omega arith))

pub print_int-injective :
    (n m : ℤ) (r s : List ℕ) → Stops r → Stops s → print_int n r ≡ print_int m s → (n ≡ m) × (r ≡ s)
unfolding print_int
print_int-injective (pos n) (pos m) r s hr hs h =
    let (e, f) = decimal-injective n m r s hr hs h in (ap pos e, f)
print_int-injective (pos n) (negsuc m) r s hr hs h = absurd (decimal-ne-minus n r _ h)
print_int-injective (negsuc n) (pos m) r s hr hs h = absurd (decimal-ne-minus m s _ (sym h))
print_int-injective (negsuc n) (negsuc m) r s hr hs h =
    let (e, f) = decimal-injective (suc n) (suc m) r s hr hs cc in (ap negsuc (omega arith), f)
