-- ===== src/Canonical/Utf8.antt =====
-- `str.encode("utf-8")`, over code points, and its decoder.
use provable_agent_reference.Base.{
  ℕ, ◌+◌, ◌-◌, ◌*◌, ◌/◌, ◌%◌, ◌≡◌, refl, sym, ap, ◌∙◌, List, [], ◌∷◌, ltb, if◌then◌else◌, arith,
}

unfoldable pub encode_char : ℕ → List ℕ → List ℕ
encode_char c rest =
    if ltb c 128
    then c ∷ rest
    else if ltb c 2048
    then (192 + c / 64) ∷ (128 + c % 64) ∷ rest
    else if ltb c 65536
    then (224 + c / 4096) ∷ (128 + c / 64 % 64) ∷ (128 + c % 64) ∷ rest
    else (240 + c / 262144) ∷ (128 + c / 4096 % 64) ∷ (128 + c / 64 % 64) ∷ (128 + c % 64) ∷ rest

unfoldable pub encode : List ℕ → List ℕ
encode [] = []
encode (c ∷ cs) = encode_char c (encode cs)

abbrev decode_4 : ℕ → ℕ → ℕ → List ℕ → ℕ × List ℕ
decode_4 b x y [] = (0, [])
decode_4 b x y (z ∷ rest) =
    ((b - 240) * 262144 + (x - 128) * 4096 + (y - 128) * 64 + (z - 128), rest)

abbrev decode_3 : ℕ → ℕ → List ℕ → ℕ × List ℕ
decode_3 b x [] = (0, [])
decode_3 b x (y ∷ rest) =
    if ltb b 240 then ((b - 224) * 4096 + (x - 128) * 64 + (y - 128), rest) else decode_4 b x y rest

abbrev decode_2 : ℕ → List ℕ → ℕ × List ℕ
decode_2 b [] = (0, [])
decode_2 b (x ∷ rest) = if ltb b 224 then ((b - 192) * 64 + (x - 128), rest) else decode_3 b x rest

-- The code point in front, and the bytes behind it.
abbrev decode_char : List ℕ → ℕ × List ℕ
decode_char [] = (0, [])
decode_char (b ∷ rest) = if ltb b 128 then (b, rest) else decode_2 b rest

decode_char-encode_char : (c : ℕ) (rest : List ℕ) → decode_char (encode_char c rest) ≡ (c, rest)
unfolding encode_char
decode_char-encode_char c rest = ground arith

encode_char-ne-nil : (c : ℕ) (rest : List ℕ) → encode_char c rest ≡ [] → ⊥
unfolding encode_char
encode_char-ne-nil c rest h = ground arith

pub encode-injective : (s t : List ℕ) → encode s ≡ encode t → s ≡ t
unfolding encode
encode-injective [] [] h = refl
encode-injective [] (d ∷ t) h = absurd (encode_char-ne-nil d (encode t) (sym h))
encode-injective (c ∷ s) [] h = absurd (encode_char-ne-nil c (encode s) h)
encode-injective (c ∷ s) (d ∷ t) h =
    let e : ◌≡◌ {A = ℕ × List ℕ} (c, encode s) (d, encode t) =
      sym (decode_char-encode_char c _) ∙ ap decode_char h ∙ decode_char-encode_char d _ in
    let rest = encode-injective s t (ap (λ p. p.1) e) in λ i. (e i).0 ∷ rest i
