-- ===== src/Chain/Bytes.antt =====
-- `uuidToBytes32` of apps/api/src/stellar/soroban.service.ts. Texts are lists of UTF-16 code units,
-- buffers are lists of bytes.
pub mod Laws
use pay_era.Prelude.{
  ℕ, zero, suc, ◌+◌, ◌-◌, ◌*◌, Bool, true, false, not, ◌&&◌, Option, none, some, List, [], ◌∷◌,
  ◌++◌, ◌==◌, leb, if◌then◌else◌, length, filter, take, drop,
}

abbrev pub replicate : ℕ → ℕ → List ℕ
replicate zero c = []
replicate (suc n) c = c ∷ replicate n c

-- `.padStart(64, '0')`
abbrev pub pad_start : List ℕ → List ℕ
pad_start t = replicate (64 - length t) 48 ++ t

-- `.slice(-64)`
abbrev pub last_64 : List ℕ → List ℕ
last_64 t = drop (length t - 64) t

-- The value of a hexadecimal digit.
abbrev pub hex_value : ℕ → Option ℕ
hex_value c =
    if leb 48 c && leb c 57
    then some (c - 48)
    else if leb 97 c && leb c 102
    then some (c - 87)
    else if leb 65 c && leb c 70
    then some (c - 55)
    else none

-- `Buffer.from(text, 'hex')`, which ends at the first pair that is not hexadecimal.
unfoldable pub from_hex : List ℕ → List ℕ
from_hex [] = []
from_hex (a ∷ []) = []
from_hex (a ∷ b ∷ t) =
    let rest = from_hex t in
    elim (hex_value a) [
      | none ↦ []
      | some h ↦ elim (hex_value b) [ none ↦ [] | some l ↦ (h * 16 + l) ∷ rest ]
    ]

-- `.replace(/-/g, '')`
abbrev pub without_dashes : List ℕ → List ℕ
without_dashes = filter (λ c. not (c == 45))

-- `bytes.copy(Buffer.alloc(32, 0))`
abbrev pub copy_32 : List ℕ → List ℕ
copy_32 bytes = take 32 (bytes ++ replicate 32 0)

unfoldable pub uuid_to_bytes32 : List ℕ → List ℕ
uuid_to_bytes32 uuid = copy_32 (from_hex (last_64 (pad_start (without_dashes uuid))))
