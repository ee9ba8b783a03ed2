-- ===== src/Encoding/Tests.antt =====
-- Runs of the encodings.
use peanuts.Base.{[], ◌∷◌, ◌≡◌, arith, refl}
use peanuts.Encoding.{encode_varint, decode_all, values, encode_rounds}
use peanuts.Encoding.Varint.{encode_series, decode_all-encode_series}

encode_varint_of_300 : encode_varint 300 ≡ 172 ∷ 2 ∷ []
unfolding encode_varint encode_rounds
encode_varint_of_300 = refl

decode_all-encode_series_example :
    decode_all (encode_series (record { buffer = []; data_count = 0 }) (1 ∷ 300 ∷ 70000 ∷ []))
    ≡ values (1 ∷ 300 ∷ 70000 ∷ []) []
decode_all-encode_series_example = decode_all-encode_series (1 ∷ 300 ∷ 70000 ∷ []) (omega arith)
