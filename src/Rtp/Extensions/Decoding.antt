-- ===== src/Rtp/Extensions/Decoding.antt =====
-- Decoding extension elements gives back the elements that were encoded.
use wroom.Common.{
  ℕ, zero, suc, ◌+◌, ◌-◌, ◌*◌, ◌/◌, ◌%◌, ◌≤◌, List, [], ◌∷◌, ◌++◌, false, ◌≡◌, refl, arith, length,
  length-append, length-drop, take, drop, replicate, All, ap, ◌∙◌,
}
use wroom.Common.Bytes.{Bytes}
use wroom.Rtp.Extensions.{one_byte_elements, two_byte_elements, elements}

-- More fuel than the length of the area changes nothing.
one_byte_fuel :
    (n m : ℕ) (area : Bytes)
    → length area ≤ n
    → length area ≤ m
    → one_byte_elements n area ≡ one_byte_elements m area
unfolding one_byte_elements
one_byte_fuel zero zero area a b = refl
one_byte_fuel zero (suc m) [] a b = refl
one_byte_fuel zero (suc m) (x ∷ area) a b = absurd (omega arith)
one_byte_fuel (suc n) zero [] a b = refl
one_byte_fuel (suc n) zero (x ∷ area) a b = absurd (omega arith)
one_byte_fuel (suc n) (suc m) [] a b = refl
one_byte_fuel (suc n) (suc m) (x ∷ area) a b = ground (
  arith,
  one_byte_fuel n m area,
  one_byte_fuel n m (drop (x % 16 + 1) area),
  length-drop (x % 16 + 1) area,
)

two_byte_fuel :
    (n m : ℕ) (area : Bytes)
    → length area ≤ n
    → length area ≤ m
    → two_byte_elements n area ≡ two_byte_elements m area
unfolding two_byte_elements
two_byte_fuel zero zero area a b = refl
two_byte_fuel zero (suc m) [] a b = refl
two_byte_fuel zero (suc m) (x ∷ area) a b = absurd (omega arith)
two_byte_fuel (suc n) zero [] a b = refl
two_byte_fuel (suc n) zero (x ∷ area) a b = absurd (omega arith)
two_byte_fuel (suc n) (suc m) [] a b = refl
two_byte_fuel (suc n) (suc m) (x ∷ []) a b = refl
two_byte_fuel (suc n) (suc m) (x ∷ len ∷ area) a b =
    ground (
      arith,
      two_byte_fuel n m (len ∷ area),
      two_byte_fuel n m (drop len area),
      length-drop len area,
    )

take_app : (v area : Bytes) → take (length v) (v ++ area) ≡ v
take_app [] area = refl
take_app (x ∷ v) area = ap (λ t. x ∷ t) (take_app v area)

app_assoc : (a b c : Bytes) → (a ++ b) ++ c ≡ a ++ (b ++ c)
app_assoc [] b c = refl
app_assoc (x ∷ a) b c = ap (λ t. x ∷ t) (app_assoc a b c)

drop_app : (v area : Bytes) → drop (length v) (v ++ area) ≡ area
drop_app [] area = refl
drop_app (x ∷ v) area = drop_app v area

-- An element of the one-byte form has an id from 1 to 14 and a value of 1 to 16 bytes.
abbrev pub FitsOneByte : ℕ × Bytes → Type 0
FitsOneByte (id, value) = (1 ≤ id) × (id ≤ 14) × (1 ≤ length value) × (length value ≤ 16)

-- RFC 8285's encoding in the one-byte form: the id and the length less one share a byte.
unfoldable pub encode_one_byte : List (ℕ × Bytes) → Bytes
encode_one_byte [] = []
encode_one_byte ((id, value) ∷ es) = (id * 16 + (length value - 1)) ∷ value ++ encode_one_byte es

zeros_one_byte : (fuel pad : ℕ) → one_byte_elements fuel (replicate pad 0) ≡ []
unfolding one_byte_elements
zeros_one_byte zero pad = refl
zeros_one_byte (suc fuel) zero = refl
zeros_one_byte (suc fuel) (suc pad) = zeros_one_byte fuel pad

one_byte_step :
    (fuel id : ℕ) (value rest : Bytes)
    → FitsOneByte (id, value)
    → one_byte_elements (suc fuel) ((id * 16 + (length value - 1)) ∷ (value ++ rest))
      ≡ (id, value) ∷ one_byte_elements fuel rest
unfolding one_byte_elements
one_byte_step fuel id value rest fits =
    let b = id * 16 + (length value - 1) in
    let len : b % 16 + 1 ≡ length value = ground arith in
    let top : b / 16 ≡ id = ground arith in
    rw len (
      rw top (
        rw (take_app value rest)
          (rw (drop_app value rest) (ground (arith, length-append value rest)))))

one_byte_encoded :
    (fuel pad : ℕ) (es : List (ℕ × Bytes))
    → All FitsOneByte es
    → length (encode_one_byte es ++ replicate pad 0) ≤ fuel
    → one_byte_elements fuel (encode_one_byte es ++ replicate pad 0) ≡ es
unfolding encode_one_byte
one_byte_encoded fuel pad [] fits enough = zeros_one_byte fuel pad
one_byte_encoded zero pad ((id, value) ∷ es) fits enough = absurd (omega arith)
one_byte_encoded (suc fuel) pad ((id, value) ∷ es) fits enough =
    let area = encode_one_byte es ++ replicate pad 0 in
    let joined = app_assoc value (encode_one_byte es) (replicate pad 0) in
    let shorter : length area ≤ fuel =
      omega (arith, enough, ap length joined, length-append value area) in
    rw joined (
      one_byte_step fuel id value area fits.0
      ∙ ap (λ t. (id, value) ∷ t) (one_byte_encoded fuel pad es fits.1 shorter))

-- The iterator gives back the elements of an area that was encoded in the one-byte form and padded
-- with zeros, for elements that fit that form.
pub elements-encode_one_byte :
    (pad : ℕ) (es : List (ℕ × Bytes))
    → All FitsOneByte es
    → elements false (encode_one_byte es ++ replicate pad 0) ≡ es
unfolding elements
elements-encode_one_byte pad es fits =
    one_byte_encoded (length (encode_one_byte es ++ replicate pad 0)) pad es fits (omega arith)
