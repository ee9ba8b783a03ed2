-- ===== src/Encoding/Varint.antt =====
-- The variable-length encoding.
use peanuts.Base.{ℕ, zero, suc, List, [], ◌∷◌, ◌≡◌, arith, ◌≤◌, ◌<◌, ◌^◌, ◌*◌, ◌+◌, two64, ◌++◌}
use peanuts.Base.{Bool-cases, leb, ◌∙◌, inl, ◌%◌, leb→le, ◌/◌, ap, ◌==◌, inr, sym, leb→lt, false}
use peanuts.Base.{true, lt→leb, refl, length, All, IsU64, append_nil, ap₂, append_assoc}
use peanuts.Encoding.{encode_rounds, encode_varint, decoded, decode_rounds, decode_varint}
use peanuts.Encoding.{Compressor, encode, decode_all, iterate, and_value, values}
use native.Mathlib.Nat.{pow-le-pow_right, mul-le-mul, add-mul, mul_assoc, mod-eq_of_lt}
use native.Mathlib.Decide.{dec_lt}
use native.Mathlib.Omega.{pow_step}

small-shift : (v s : ℕ) → 128 ≤ v → v * 2 ^ s < two64 → s < 57
small-shift v s h l = elim (dec_lt s 57) [
  | yes p ↦ p
  | no p ↦
      let q : 2 ^ 57 ≤ 2 ^ s = pow-le-pow_right (omega arith) {i = 57} (omega arith) in
      let r : 128 * 2 ^ 57 ≤ v * 2 ^ s = mul-le-mul h q in absurd (omega arith)
]

pow_next : (j k : ℕ) → j ≡ suc k → 2 ^ j ≡ 2 * 2 ^ k
pow_next j k e = ap (λ (x : ℕ). 2 ^ x) e ∙ pow_step 2 k

pow-add_seven : (s : ℕ) → 2 ^ (s + 7) ≡ 128 * 2 ^ s
pow-add_seven s = omega (
  arith,
  pow_next (s + 7) (s + 6) (omega arith),
  pow_next (s + 6) (s + 5) (omega arith),
  pow_next (s + 5) (s + 4) (omega arith),
  pow_next (s + 4) (s + 3) (omega arith),
  pow_next (s + 3) (s + 2) (omega arith),
  pow_next (s + 2) (s + 1) (omega arith),
  pow_next (s + 1) s (omega arith),
)

-- The low seven bits of a value and the others, shifted.
shift-split : (v s : ℕ) → v * 2 ^ s ≡ v % 128 * 2 ^ s + v / 128 * 2 ^ (s + 7)
shift-split v s =
    let e : v % 128 + v / 128 * 128 ≡ v = omega arith in
    ap (λ (x : ℕ). x * 2 ^ s) (sym e)
    ∙ add-mul (v % 128) (v / 128 * 128) (2 ^ s)
    ∙ ap (λ (x : ℕ). v % 128 * 2 ^ s + x)
        (mul_assoc (v / 128) 128 (2 ^ s) ∙ ap (λ (x : ℕ). v / 128 * x) (sym (pow-add_seven s)))

-- The last byte.
decode_rounds-last :
    (acc s v : ℕ) (rest : List ℕ)
    → v < 128
    → s < 64
    → v * 2 ^ s < two64
    → decode_rounds acc s (v ∷ rest) ≡ decoded (acc + v * 2 ^ s) rest
unfolding decode_rounds
decode_rounds-last acc s v rest b h l =
    let e : v % 128 ≡ v = omega arith in
    let z : (v / 128 % 2 == 0) ≡ true = ground arith in
    let m : v * 2 ^ s % two64 ≡ v * 2 ^ s = mod-eq_of_lt l in
    rw (lt→leb s 64 h, z, decode_rounds) (rw (e, m) refl)

-- A byte that others follow.
decode_rounds-more :
    (acc s v : ℕ) (rest : List ℕ)
    → s < 64
    → v * 2 ^ s < two64
    → decode_rounds acc s ((v % 128 + 128) ∷ rest)
      ≡ decode_rounds (acc + v % 128 * 2 ^ s) (s + 7) rest
unfolding decode_rounds
decode_rounds-more acc s v rest h l =
    let e : (v % 128 + 128) % 128 ≡ v % 128 = omega arith in
    let z : ((v % 128 + 128) / 128 % 2 == 0) ≡ false = ground arith in
    let m : v % 128 * 2 ^ s % two64 ≡ v % 128 * 2 ^ s =
      mod-eq_of_lt (omega (arith, shift-split v s)) in
    rw (lt→leb s 64 h, z, decode_rounds) (rw (e, m) refl)

decode_rounds-encode_rounds :
    (fuel acc s v : ℕ) (rest : List ℕ)
    → v < 128 * 2 ^ (7 * fuel)
    → s < 64
    → v * 2 ^ s < two64
    → decode_rounds acc s (encode_rounds fuel v ++ rest) ≡ decoded (acc + v * 2 ^ s) rest
unfolding encode_rounds
decode_rounds-encode_rounds zero acc s v rest b h l =
    decode_rounds-last acc s v rest (omega arith) h l
decode_rounds-encode_rounds (suc fuel) acc s v rest b h l = elim (Bool-cases (leb 128 v)) [
  | inl t ↦
      let p : s < 57 = small-shift v s (leb→le 128 v t) l in
      let e : 7 * suc fuel ≡ 7 * fuel + 7 = omega arith in
      let b' : v < 128 * (128 * 2 ^ (7 * fuel)) = rw (e, pow-add_seven (7 * fuel)) at b in
      rw (t, ◌++◌)
        (decode_rounds-more acc s v (encode_rounds fuel (v / 128) ++ rest) h l
          ∙ decode_rounds-encode_rounds fuel (acc + v % 128 * 2 ^ s) (s + 7) (v / 128) rest
              (omega arith) (omega arith) (omega (arith, shift-split v s))
          ∙ ap (λ (x : ℕ). decoded x rest) (omega (arith, shift-split v s)))
  | inr t ↦ rw (t, ◌++◌) (decode_rounds-last acc s v rest (leb→lt 128 v t) h l)
]

-- Decoding the bytes of a 64-bit number that other bytes follow gives the number and leaves the
-- other bytes.
decode_varint-encode_varint :
    (v : ℕ) (rest : List ℕ) → v < two64 → decode_varint (encode_varint v ++ rest) ≡ decoded v rest
unfolding decode_varint encode_varint
decode_varint-encode_varint v rest h =
    decode_rounds-encode_rounds 10 0 0 v rest (omega arith) (omega arith) (omega arith)
    ∙ ap (λ (x : ℕ). decoded x rest) (omega arith)

-- All values of a series, in the order encoded.
unfoldable pub encode_series : Compressor → List ℕ → Compressor
encode_series c [] = c
encode_series c (v ∷ vs) = encode_series (encode c v) vs

encoded : List ℕ → List ℕ
encoded [] = []
encoded (v ∷ vs) = encode_varint v ++ encoded vs

encode_series-encoded :
    (c : Compressor) (vs : List ℕ)
    → encode_series c vs
      ≡ record { buffer = c.buffer ++ encoded vs; data_count = c.data_count + length vs }
unfolding encode_series encoded encode
encode_series-encoded c [] =
    rw (append_nil c.buffer) (ap (λ (n : ℕ). record c { data_count = n }) (omega arith))
encode_series-encoded c (v ∷ vs) =
    encode_series-encoded (encode c v) vs
    ∙ ap₂ (λ (b : List ℕ) (n : ℕ). record { buffer = b; data_count = n })
        (append_assoc c.buffer (encode_varint v) (encoded vs)) (omega arith)

iterate-encoded : (vs : List ℕ) → All IsU64 vs → iterate (length vs) (encoded vs) ≡ values vs []
unfolding iterate encoded and_value
iterate-encoded [] a = refl
iterate-encoded (v ∷ vs) a =
    rw (decode_varint-encode_varint v (encoded vs) a.0, iterate) (rw (iterate-encoded vs a.1))

-- The values that a compressor encodes one after the other, each a 64-bit number, are those that
-- its iteration decodes, and no byte is left.
pub decode_all-encode_series :
    (vs : List ℕ)
    → All IsU64 vs
    → decode_all (encode_series (record { buffer = []; data_count = 0 }) vs) ≡ values vs []
unfolding decode_all
decode_all-encode_series vs a =
    let e : 0 + length vs ≡ length vs = omega arith in
    rw (encode_series-encoded (record { buffer = []; data_count = 0 }) vs, e) (iterate-encoded vs a)
