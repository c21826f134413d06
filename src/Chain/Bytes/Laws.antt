-- ===== src/Chain/Bytes/Laws.antt =====
-- The identifiers of the contracts: 32 bytes, and different ones for different ids.
use pay_era.Prelude.{
  ℕ, zero, suc, ◌+◌, ◌-◌, ◌*◌, ◌≤◌, ◌<◌, ◌≡◌, ◌↔◌, ◌⊎◌, inl, inr, refl, sym, ap, ◌∙◌, List, [], ◌∷◌,
  ◌++◌, arith, All, All-append, length, length-append, take, some, leb, if◌then◌else◌,
}
use pay_era.Chain.Bytes.{
  replicate, pad_start, last_64, hex_value, from_hex, without_dashes, copy_32, uuid_to_bytes32,
}

length-replicate : (n c : ℕ) → length (replicate n c) ≡ n
length-replicate zero c = refl
length-replicate (suc n) c = ap suc (length-replicate n c)

length-take : (n : ℕ) (xs : List ℕ) → n ≤ length xs → length (take n xs) ≡ n
length-take zero xs h = refl
length-take (suc n) [] h = ground arith
length-take (suc n) (x ∷ xs) h = ap suc (length-take n xs (omega arith))

-- The copy has 32 bytes.
length-copy_32 : (b : List ℕ) → length (copy_32 b) ≡ 32
length-copy_32 b =
    length-take 32 (b ++ replicate 32 0) (omega (arith, length-append b (replicate 32 0)))

take-append : (n : ℕ) (xs ys : List ℕ) → length xs ≡ n → take n (xs ++ ys) ≡ xs
take-append zero [] ys h = refl
take-append zero (x ∷ xs) ys h = ground arith
take-append (suc n) [] ys h = ground arith
take-append (suc n) (x ∷ xs) ys h = ap (λ t. x ∷ t) (take-append n xs ys (omega arith))

-- A hexadecimal digit in lower case, as in the text of a UUID.
abbrev pub IsDigit : ℕ → Type 0
IsDigit c = ((48 ≤ c) × (c ≤ 57)) ⊎ ((97 ≤ c) × (c ≤ 102))

digit : ℕ → ℕ
digit c = if leb c 57 then c - 48 else c - 87

hex_value_lem : (c : ℕ) → IsDigit c → (hex_value c ≡ some (digit c)) × (digit c < 16)
unfolding digit
hex_value_lem c (inl h) = (ground arith, ground arith)
hex_value_lem c (inr h) = (ground arith, ground arith)

digit_injective : (a b : ℕ) → IsDigit a → IsDigit b → digit a ≡ digit b → a ≡ b
unfolding digit
digit_injective a b (inl h) (inl k) e = ground arith
digit_injective a b (inl h) (inr k) e = ground arith
digit_injective a b (inr h) (inl k) e = ground arith
digit_injective a b (inr h) (inr k) e = ground arith

from_hex-pair :
    (a b : ℕ) (t : List ℕ)
    → IsDigit a
    → IsDigit b
    → from_hex (a ∷ b ∷ t) ≡ (digit a * 16 + digit b) ∷ from_hex t
unfolding from_hex
from_hex-pair a b t h k = ground (arith, hex_value_lem a h, hex_value_lem b k)

length-from_hex : (n : ℕ) (t : List ℕ) → All IsDigit t → length t ≡ n + n → length (from_hex t) ≡ n
unfolding from_hex
length-from_hex zero [] d e = refl
length-from_hex zero (a ∷ t) d e = ground arith
length-from_hex (suc n) [] d e = ground arith
length-from_hex (suc n) (a ∷ []) d e = ground arith
length-from_hex (suc n) (a ∷ b ∷ t) d e =
    ap length (from_hex-pair a b t d.0 d.1.0) ∙ ap suc (length-from_hex n t d.1.1 (omega arith))

from_hex_injective :
    (n : ℕ) (t u : List ℕ)
    → All IsDigit t
    → All IsDigit u
    → length t ≡ n + n
    → length u ≡ n + n
    → from_hex t ≡ from_hex u
    → t ≡ u
from_hex_injective zero [] [] d e h k same = refl
from_hex_injective zero [] (b ∷ u) d e h k same = ground arith
from_hex_injective zero (a ∷ t) u d e h k same = ground arith
from_hex_injective (suc n) [] u d e h k same = ground arith
from_hex_injective (suc n) (a ∷ []) u d e h k same = ground arith
from_hex_injective (suc n) (a ∷ b ∷ t) [] d e h k same = ground arith
from_hex_injective (suc n) (a ∷ b ∷ t) (c ∷ []) d e h k same = ground arith
from_hex_injective (suc n) (a ∷ b ∷ t) (c ∷ x ∷ u) d e h k same =
    let pairs : (digit a * 16 + digit b) ∷ from_hex t ≡ (digit c * 16 + digit x) ∷ from_hex u =
      sym (from_hex-pair a b t d.0 d.1.0) ∙ same ∙ from_hex-pair c x u e.0 e.1.0 in
    let first : digit a * 16 + digit b ≡ digit c * 16 + digit x = cc in
    let rest : from_hex t ≡ from_hex u = cc in
    let low_b = (hex_value_lem b d.1.0).1 in
    let low_x = (hex_value_lem x e.1.0).1 in
    let high : digit a ≡ digit c = omega arith in
    let low : digit b ≡ digit x = omega arith in
    let a-eq = digit_injective a c d.0 e.0 high in
    let b-eq = digit_injective b x d.1.0 e.1.0 low in
    let t-eq = from_hex_injective n t u d.1.1 e.1.1 (omega arith) (omega arith) rest in cc

-- What stands behind the zeros: 64 digits where the id has at most that many.
padded : List ℕ → List ℕ
padded t = last_64 (pad_start t)

length-padded : (t : List ℕ) → length t ≤ 64 → length (pad_start t) ≡ 64
length-padded t h =
    length-append (replicate (64 - length t) 48) t
    ∙ ap (λ n. n + length t) (length-replicate (64 - length t) 48)
    ∙ omega arith

padded-eq : (t : List ℕ) → length t ≤ 64 → padded t ≡ pad_start t
unfolding padded
padded-eq t h = rw (length-padded t h) refl

All-replicate : (n : ℕ) → All IsDigit (replicate n 48)
All-replicate zero = tt
All-replicate (suc n) = (inl (omega arith, omega arith), All-replicate n)

append_cancel : (p t u : List ℕ) → p ++ t ≡ p ++ u → t ≡ u
append_cancel [] t u e = e
append_cancel (x ∷ p) t u e = append_cancel p t u (cc)

abbrev zeros : List ℕ
zeros = replicate 32 48

padded_lem : (a : List ℕ) → length a ≡ 32 → padded a ≡ zeros ++ a
padded_lem a h = padded-eq a (omega arith) ∙ ap (λ n. replicate (64 - n) 48 ++ a) h

All-zeros : (a : List ℕ) → All IsDigit a → All IsDigit (zeros ++ a)
All-zeros a d = All-append IsDigit zeros a (All-replicate 32) d

length-zeros : (a : List ℕ) → length a ≡ 32 → length (zeros ++ a) ≡ 32 + 32
length-zeros a h = length-append zeros a ∙ ap (λ n. 32 + n) h

copied :
    (a : List ℕ)
    → length a ≡ 32
    → All IsDigit a
    → copy_32 (from_hex (padded a)) ≡ from_hex (zeros ++ a)
copied a h d =
    ap (λ t. copy_32 (from_hex t)) (padded_lem a h)
    ∙ take-append 32 (from_hex (zeros ++ a)) (replicate 32 0)
        (length-from_hex 32 (zeros ++ a) (All-zeros a d) (length-zeros a h))

-- An id with 32 hexadecimal digits in lower case, as UUIDs have, becomes 32 bytes, and two of them
-- become the same bytes exactly where their digits are the same.
pub uuid_to_bytes32_iff :
    (t u : List ℕ)
    → length (without_dashes t) ≡ 32
    → length (without_dashes u) ≡ 32
    → All IsDigit (without_dashes t)
    → All IsDigit (without_dashes u)
    → (length (uuid_to_bytes32 t) ≡ 32)
      × ((uuid_to_bytes32 t ≡ uuid_to_bytes32 u) ↔ (without_dashes t ≡ without_dashes u))
unfolding uuid_to_bytes32 padded
uuid_to_bytes32_iff t u h k d e =
    let a = without_dashes t in
    let b = without_dashes u in
    (
      length-copy_32 (from_hex (padded a)),
      (
        λ same. append_cancel zeros a b (
            from_hex_injective 32 (zeros ++ a) (zeros ++ b) (All-zeros a d) (All-zeros b e)
              (length-zeros a h) (length-zeros b k) (sym (copied a h d) ∙ same ∙ copied b k e)),
        λ same. ap (λ x. copy_32 (from_hex (padded x))) same,
      ),
    )
