-- ===== src/Auth/Signature.antt =====
-- The check of a login's signature in `walletLogin` of apps/api/src/auth/auth.service.ts. Texts are
-- lists of UTF-16 code units. The keys, the hash and the buffers are those of the Stellar SDK and of
-- Node.js.
pub mod Laws
use pay_era.Prelude.{
  ℕ, zero, suc, ◌-◌, ◌%◌, Bool, true, false, not, ◌&&◌, ◌||◌, List, [], ◌∷◌, ◌++◌, map, String,
  Result, ok, err, unauthorized, message, ◌==◌, leb, if◌then◌else◌, all, length,
}

pub record Crypto : Type 1 where
  pub Bytes : Type 0
  pub PublicKey : Type 0
  pub from_public_key : List ℕ → Result PublicKey
  -- Key, data and signature.
  pub verify : PublicKey → Bytes → Bytes → Result Bool
  pub utf8 : List ℕ → Bytes
  pub from_hex : List ℕ → Bytes
  pub from_base64 : List ℕ → Bytes
  pub concat : Bytes → Bytes → Bytes
  pub sha256 : Bytes → Bytes

abbrev pub is_hex_digit : ℕ → Bool
is_hex_digit c = (leb 48 c && leb c 57) || (leb 97 c && leb c 102) || (leb 65 c && leb c 70)

-- `sigStr.length === 128 && /^[0-9a-fA-F]+$/.test(sigStr)`
abbrev pub is_hex_signature : List ℕ → Bool
is_hex_signature sig = length sig == 128 && all is_hex_digit sig

-- `.replace(/-/g, '+').replace(/_/g, '/')`
abbrev pub standard : ℕ → ℕ
standard c = if c == 45 then 43 else if c == 95 then 47 else c

-- The loop that adds `=`; fuel 3 is enough (`length-pad`).
unfoldable pub pad : ℕ → List ℕ → List ℕ
pad zero sig = sig
pad (suc fuel) sig =
    let rest = pad fuel (sig ++ 61 ∷ []) in if length sig % 4 == 0 then sig else rest

unfoldable pub normalize_signature : List ℕ → List ℕ
normalize_signature sig = if is_hex_signature sig then sig else pad 3 (map standard sig)

-- `.replace(/\r\n/g, '\n')`
unfoldable pub to_lf : List ℕ → List ℕ
to_lf [] = []
to_lf (c ∷ []) = c ∷ []
to_lf (c ∷ d ∷ cs) =
    let rest = to_lf cs in
    let next = to_lf (d ∷ cs) in if c == 13 && d == 10 then 10 ∷ rest else c ∷ next

-- `.replace(/\n/g, '\r\n')`
unfoldable pub to_crlf : List ℕ → List ℕ
to_crlf [] = []
to_crlf (c ∷ cs) = if c == 10 then 13 ∷ 10 ∷ to_crlf cs else c ∷ to_crlf cs

-- `Stellar Signed Message:`
abbrev pub header_text : List ℕ
header_text =
    83 ∷ 116 ∷ 101 ∷ 108 ∷ 108 ∷ 97 ∷ 114 ∷ 32 ∷ 83 ∷ 105 ∷ 103 ∷ 110 ∷ 101 ∷ 100 ∷ 32 ∷ 77 ∷ 101
    ∷ 115 ∷ 115 ∷ 97 ∷ 103 ∷ 101 ∷ 58 ∷ []

-- `if (check) { isValidSignature = true; break }`, with what follows otherwise.
abbrev pub or_next : Result Bool → Result Bool → Result Bool
or_next (err e) rest = err e
or_next (ok true) rest = ok true
or_next (ok false) rest = rest

module _ (c : Crypto) where
  open c use {
    Bytes, PublicKey, from_public_key, verify, utf8, from_hex, from_base64, concat, sha256,
  }

  unfoldable pub signature_buffer : List ℕ → Bytes
  signature_buffer sig = if is_hex_signature sig then from_hex sig else from_base64 sig

  abbrev pub prefixes : List Bytes
  prefixes = utf8 (header_text ++ 10 ∷ []) ∷ utf8 (header_text ++ 13 ∷ 10 ∷ []) ∷ []

  -- The loop over the prefixes.
  unfoldable pub try_prefixes : PublicKey → Bytes → Bytes → List Bytes → Result Bool
  try_prefixes key sig msg [] = ok false
  try_prefixes key sig msg (p ∷ ps) =
      or_next (verify key (concat p msg) sig)
        (or_next (verify key (sha256 (concat p msg)) sig) (try_prefixes key sig msg ps))

  -- The loop over the versions of the message.
  unfoldable pub try_messages : PublicKey → Bytes → List (List ℕ) → Result Bool
  try_messages key sig [] = ok false
  try_messages key sig (m ∷ ms) =
      or_next (verify key (utf8 m) sig)
        (or_next (try_prefixes key sig (utf8 m) prefixes) (try_messages key sig ms))

  abbrev pub versions : List ℕ → List (List ℕ)
  versions text = to_lf text ∷ to_crlf (to_lf text) ∷ []

  -- The body of the `try`.
  unfoldable pub is_valid_signature : List ℕ → List ℕ → List ℕ → Result Bool
  is_valid_signature address signature expected = elim (from_public_key address) [
    | err e ↦ err e
    | ok key ↦
        try_messages key (signature_buffer (normalize_signature signature)) (versions expected)
  ]

  -- The check with its exceptions, whose texts are shortened to their constant beginning.
  unfoldable pub check_signature : List ℕ → List ℕ → List ℕ → Result (Unit {0})
  check_signature address signature expected =
      elim (is_valid_signature address signature expected) [
        | err e ↦ err (unauthorized "Invalid signature format")
        | ok false ↦ err (unauthorized "Signature verification failed")
        | ok true ↦ ok tt
      ]
