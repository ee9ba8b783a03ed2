-- ===== src/Encoding/Delta.antt =====
-- The delta encoding.
use peanuts.Base.{ℕ, List, [], ◌∷◌, ◌≡◌, refl, arith, ◌<◌, two64, All, IsU64, add64, sub64, ap}
use peanuts.Encoding.{delta_encode, delta_decode}

-- All values of a series, from a state on.
encode_all : ℕ → List ℕ → List ℕ
encode_all prev [] = []
encode_all prev (v ∷ vs) = let (d, prev') = delta_encode prev v in d ∷ encode_all prev' vs

decode_deltas : ℕ → List ℕ → List ℕ
decode_deltas prev [] = []
decode_deltas prev (d ∷ ds) = let (v, prev') = delta_decode prev d in v ∷ decode_deltas prev' ds

-- Decoding the deltas of a series of 64-bit numbers gives the series, from any state that encoder
-- and decoder share.
decode_deltas-encode_all :
    (prev : ℕ) (vs : List ℕ)
    → prev < two64
    → All IsU64 vs
    → decode_deltas prev (encode_all prev vs) ≡ vs
unfolding decode_deltas encode_all delta_encode delta_decode
decode_deltas-encode_all prev [] h a = refl
decode_deltas-encode_all prev (v ∷ vs) h a =
    let e : add64 (sub64 v prev) prev ≡ v = omega arith in
    rw e (ap (◌∷◌ v) (decode_deltas-encode_all v vs a.0 a.1))
