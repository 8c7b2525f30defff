-- ===== src/Json/Print.antt =====
-- `json.dumps(value, allow_nan=False, ensure_ascii=False, separators=(",", ":"))`, as the code
-- points that it writes in front of a text `rest`. The keys are sorted before (Json/Order).
use provable_agent_reference.Base.{
  ℕ, zero, suc, ◌+◌, ◌/◌, ◌%◌, ◌≡◌, refl, String, Bool, true, false, List, [], ◌∷◌, codes, ltb,
  nat_eq, if◌then◌else◌, code,
}
use provable_agent_reference.Json.{
  ℤ, pos, negsuc, Key, text_key, other_key, Value, Items, Fields, null, bool, int, str, arr, obj,
  other, nil, cons, end, field,
}

-- A lower-case hexadecimal digit.
abbrev hex_digit : ℕ → ℕ
hex_digit d = if ltb d 10 then b'0' + d else d + 87

-- The encoder's table of escapes, and \u00xx for the other control characters.
unfoldable pub escape_char : ℕ → List ℕ → List ℕ
escape_char c rest =
    if nat_eq c b'"'
    then 92 ∷ b'"' ∷ rest
    else if nat_eq c 92
    then 92 ∷ 92 ∷ rest
    else if nat_eq c 10
    then 92 ∷ b'n' ∷ rest
    else if nat_eq c 13
    then 92 ∷ b'r' ∷ rest
    else if nat_eq c 9
    then 92 ∷ b't' ∷ rest
    else if nat_eq c 12
    then 92 ∷ b'f' ∷ rest
    else if nat_eq c 8
    then 92 ∷ b'b' ∷ rest
    else if ltb c 32
    then 92 ∷ b'u' ∷ b'0' ∷ b'0' ∷ hex_digit (c / 16) ∷ hex_digit (c % 16) ∷ rest
    else c ∷ rest

unfoldable pub escape : String → List ℕ → List ℕ
escape String.[] rest = rest
escape (String.◌∷◌ c s) rest = escape_char (code c) (escape s rest)

unfoldable pub quote : String → List ℕ → List ℕ
unfolding escape escape_char
quote s rest = b'"' ∷ escape s (b'"' ∷ rest)

-- `int.__repr__`: at most n + 1 digits.
unfoldable pub digits : ℕ → ℕ → List ℕ → List ℕ
digits zero n rest = rest
digits (suc fuel) n rest =
    let more = digits fuel (n / 10) ((b'0' + n % 10) ∷ rest) in
    if ltb n 10 then (b'0' + n) ∷ rest else more

unfoldable pub decimal : ℕ → List ℕ → List ℕ
unfolding digits
decimal n rest = digits (suc n) n rest

unfoldable pub print_int : ℤ → List ℕ → List ℕ
unfolding decimal
print_int (pos n) rest = decimal n rest
print_int (negsuc n) rest = b'-' ∷ decimal (suc n) rest

unfoldable pub print_bool : Bool → List ℕ → List ℕ
print_bool true rest = b't' ∷ b'r' ∷ b'u' ∷ b'e' ∷ rest
print_bool false rest = b'f' ∷ b'a' ∷ b'l' ∷ b's' ∷ b'e' ∷ rest

unfoldable pub print_key : Key → List ℕ → List ℕ
unfolding quote
print_key (text_key k) rest = quote k rest
print_key (other_key t) rest = rest

unfoldable mutual
  unfolding quote print_int print_bool print_key

  pub print : Value → List ℕ → List ℕ
  print null rest = b'n' ∷ b'u' ∷ b'l' ∷ b'l' ∷ rest
  print (bool b) rest = print_bool b rest
  print (int n) rest = print_int n rest
  print (str s) rest = quote s rest
  print (arr vs) rest = b'[' ∷ print_items vs (b']' ∷ rest)
  print (obj fs) rest = b'{' ∷ print_fields fs (b'}' ∷ rest)
  print (other u) rest = rest

  pub print_items : Items → List ℕ → List ℕ
  print_items nil rest = rest
  print_items (cons v vs) rest = print v (print_more vs rest)

  pub print_more : Items → List ℕ → List ℕ
  print_more nil rest = rest
  print_more (cons v vs) rest = b',' ∷ print v (print_more vs rest)

  pub print_fields : Fields → List ℕ → List ℕ
  print_fields end rest = rest
  print_fields (field k v fs) rest = print_key k (b':' ∷ print v (print_more_fields fs rest))

  pub print_more_fields : Fields → List ℕ → List ℕ
  print_more_fields end rest = rest
  print_more_fields (field k v fs) rest =
      b',' ∷ print_key k (b':' ∷ print v (print_more_fields fs rest))

test_print :
    print (obj (field (text_key "a\"b") (arr (cons (int (pos 120)) (cons null nil))) end)) []
    ≡ codes "{\"a\\\"b\":[120,null]}"
unfolding print
test_print = refl
