-- ===== src/Dsse.antt =====
-- The pre-authentication encoding of src/provable_agent_reference/dsse.py.
use text.Mathlib.TextEquality.{Char-path}
use provable_agent_reference.Base.{
  ℕ, ◌≡◌, refl, sym, ap, ◌∙◌, String, List, [], ◌∷◌, ◌++◌, length, codes, is_empty, arith,
}
use provable_agent_reference.Errors.{
  Result, ok, value_error, raise_if, ◌>>◌, >>-eq-ok, ok-injective,
}
use provable_agent_reference.Canonical.Utf8.{encode, encode-injective}
use provable_agent_reference.Json.Print.{decimal}
use provable_agent_reference.Json.Reading.{decimal-injective}

-- `b"DSSEv1 %d %s %d %s" % (len(type_bytes), type_bytes, len(payload), payload)`
unfoldable pub pae_bytes : List ℕ → List ℕ → List ℕ
pae_bytes type_bytes payload =
    b'D'
    ∷ b'S'
    ∷ b'S'
    ∷ b'E'
    ∷ b'v'
    ∷ b'1'
    ∷ b' '
    ∷ decimal (length type_bytes)
        (b' ' ∷ (type_bytes ++ (b' ' ∷ decimal (length payload) (b' ' ∷ payload))))

unfoldable pub pae : String → List ℕ → Result (List ℕ)
pae payload_type payload = do
  raise_if (is_empty payload_type) value_error "payload_type must be a non-empty string"
  ok (pae_bytes (encode (codes payload_type)) payload)

abbrev tail : List ℕ → List ℕ
tail [] = []
tail (x ∷ xs) = xs

abbrev head_or : ℕ → List ℕ → ℕ
head_or d [] = d
head_or d (x ∷ xs) = x

-- Two lists of one length in front of any rest.
append-cancel :
    (xs ys r s : List ℕ) → length xs ≡ length ys → (xs ++ r) ≡ (ys ++ s) → (xs ≡ ys) × (r ≡ s)
append-cancel [] [] r s e h = (refl, h)
append-cancel [] (y ∷ ys) r s e h = cc
append-cancel (x ∷ xs) [] r s e h = cc
append-cancel (x ∷ xs) (y ∷ ys) r s e h =
    let (same, rest) = append-cancel xs ys r s (omega arith) (ap tail h) in
    let first = ap (head_or x) h in (λ i. first i ∷ same i, rest)

pae_bytes-injective : (t u p q : List ℕ) → pae_bytes t p ≡ pae_bytes u q → (t ≡ u) × (p ≡ q)
unfolding pae_bytes
pae_bytes-injective t u p q h =
    let (n, e) =
      decimal-injective (length t) (length u) _ _ refl refl
        (ap (λ l. tail (tail (tail (tail (tail (tail (tail l))))))) h) in
    let (types, f) = append-cancel t u _ _ n (ap tail e) in
    let (m, g) = decimal-injective (length p) (length q) _ _ refl refl (ap tail f) in
    (types, ap tail g)

codes-injective : (s t : String) → codes s ≡ codes t → s ≡ t
codes-injective String.[] String.[] h = refl
codes-injective String.[] (String.◌∷◌ d t) h = cc
codes-injective (String.◌∷◌ c s) String.[] h = cc
codes-injective (String.◌∷◌ c s) (String.◌∷◌ d t) h =
    let rest = codes-injective s t (ap tail h) in
    let first = Char-path c d (ap (head_or 0) h) in λ i. String.◌∷◌ (first i) (rest i)

-- Two pairs of a payload type and a payload for which pae returns the same bytes are the same
-- pair.
pub pae-injective :
    (payload_type other_type : String) (payload other_payload : List ℕ) {b : List ℕ}
    → pae payload_type payload ≡ ok b
    → pae other_type other_payload ≡ ok b
    → (payload_type ≡ other_type) × (payload ≡ other_payload)
unfolding pae
pae-injective t u p q h k =
    let (_, made) = >>-eq-ok (raise_if (is_empty t) _ _) _ h in
    let (_, made') = >>-eq-ok (raise_if (is_empty u) _ _) _ k in
    let (types, payloads) =
      pae_bytes-injective (encode (codes t)) (encode (codes u)) p q
        (ok-injective (made ∙ sym made')) in
    (codes-injective t u (encode-injective (codes t) (codes u) types), payloads)
