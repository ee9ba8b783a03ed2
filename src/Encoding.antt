-- ===== src/Encoding.antt =====
-- projects/peanuts/include/peanuts/utils/delta_encoding.hpp and
-- projects/peanuts/include/peanuts/utils/varint_encoding.hpp, the latter for `uint64_t`.
pub mod Delta
pub mod Varint
mod Tests
use peanuts.Base.{ℕ, zero, suc, ◌+◌, ◌*◌, ◌/◌, ◌%◌, ◌^◌, Bool, true, false, List, [], ◌∷◌, ◌++◌}
use peanuts.Base.{leb, sub64, add64, two64, ◌==◌}

-- `delta_encoder` and `delta_decoder`: the state is `prev_`. The value returned, and the state.
unfoldable pub delta_encode : ℕ → ℕ → ℕ × ℕ
delta_encode prev value = (sub64 value prev, value)

unfoldable pub delta_decode : ℕ → ℕ → ℕ × ℕ
delta_decode prev delta = let value = add64 delta prev in (value, value)

-- `encode_varint`: the bytes appended to the buffer. A round takes seven bits of the value, so ten
-- rounds are enough.
unfoldable pub encode_rounds : ℕ → ℕ → List ℕ
encode_rounds zero value = value ∷ []
encode_rounds (suc fuel) value = elim (leb 128 value) [
  | true ↦ (value % 128 + 128) ∷ encode_rounds fuel (value / 128)
  | false ↦ value ∷ []
]

unfoldable pub encode_varint : ℕ → List ℕ
unfolding encode_rounds
encode_varint value = encode_rounds 10 value

-- The value and the bytes not read yet, the exception, or a shift by 64 bits or more.
pub data Decoded : Type 0 where
  decoded : ℕ → List ℕ → Decoded
  incomplete undefined_shift : Decoded

-- `decode_varint` from an index on. The bits of `value` lie below `shift`, so that the bitwise or
-- is a sum.
unfoldable pub decode_rounds : ℕ → ℕ → List ℕ → Decoded
decode_rounds value shift [] = incomplete
decode_rounds value shift (byte ∷ rest) = elim (leb 64 shift) [
  | true ↦ undefined_shift
  | false ↦
      let value' = value + byte % 128 * 2 ^ shift % two64 in
      elim (byte / 128 % 2 == 0) [
        | true ↦ decoded value' rest
        | false ↦ decode_rounds value' (shift + 7) rest
      ]
]

unfoldable pub decode_varint : List ℕ → Decoded
unfolding decode_rounds
decode_varint buffer = decode_rounds 0 0 buffer

-- `varint_compressor`: the buffer and the number of values.
pub record Compressor : Type 0 where
  pub buffer : List ℕ
  pub data_count : ℕ

unfoldable pub encode : Compressor → ℕ → Compressor
unfolding encode_varint
encode c value = record { buffer = c.buffer ++ encode_varint value; data_count = c.data_count + 1 }

-- The loop from `begin` to `end`: the values and the bytes left, or how it fails.
pub data Values : Type 0 where
  values : List ℕ → List ℕ → Values
  failed : Decoded → Values

unfoldable pub and_value : ℕ → Values → Values
and_value v (values vs rest) = values (v ∷ vs) rest
and_value v (failed d) = failed d

unfoldable pub iterate : ℕ → List ℕ → Values
unfolding decode_varint and_value
iterate zero buffer = values [] buffer
iterate (suc count) buffer = elim (decode_varint buffer) [
  | decoded v rest ↦ and_value v (iterate count rest)
  | incomplete ↦ failed incomplete
  | undefined_shift ↦ failed undefined_shift
]

unfoldable pub decode_all : Compressor → Values
unfolding iterate
decode_all c = iterate c.data_count c.buffer
