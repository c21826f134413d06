-- ===== src/Auth/Signature/Laws.antt =====
-- Which signatures are accepted: the nested loops against one list of payloads.
use pay_era.Prelude.{
  ℕ, ◌+◌, ◌-◌, ◌%◌, ◌≤◌, ◌≡◌, ◌⊎◌, inl, inr, refl, sym, ◌∙◌, Bool, true, false, List, [], ◌∷◌, ◌++◌,
  map, Result, ok, err, Exception, arith, length, length-append, Result-cases, Bool-cases, ◌==◌,
  zero, suc,
}
use pay_era.Auth.Signature.{
  Crypto, is_hex_signature, standard, pad, normalize_signature, to_lf, to_crlf, header_text,
  signature_buffer, prefixes, or_next, try_prefixes, try_messages, is_valid_signature,
  check_signature,
}

-- As many rounds of padding as are missing are enough.
length-pad :
    (n k : ℕ) (sig : List ℕ) → k ≤ n → (length sig + k) % 4 ≡ 0 → length (pad n sig) % 4 ≡ 0
unfolding pad
length-pad zero k sig le h = ground arith
length-pad (suc n) k sig le h = elim (Bool-cases (length sig % 4 == 0)) [
  | inl e ↦ ground arith
  | inr e ↦ rw e (
      length-pad n (k - 1) (sig ++ 61 ∷ []) (omega arith) (
        let one : length (sig ++ 61 ∷ []) ≡ length sig + 1 = length-append sig (61 ∷ []) in
        let missing : 1 ≤ k = ground arith in omega arith))
]

-- A signature that is not in hexadecimal is padded to a multiple of four characters.
pub normalize_signature_lem :
    (sig : List ℕ) → is_hex_signature sig ≡ false → length (normalize_signature sig) % 4 ≡ 0
unfolding normalize_signature
normalize_signature_lem sig h = rw h (
    length-pad 3 ((4 - length (map standard sig) % 4) % 4) (map standard sig) (omega arith)
      (omega arith))

or_next_assoc : (a b d : Result Bool) → or_next (or_next a b) d ≡ or_next a (or_next b d)
or_next_assoc (err e) b d = refl
or_next_assoc (ok true) b d = refl
or_next_assoc (ok false) b d = refl

module _ (c : Crypto) where
  open c use {Bytes, PublicKey, from_public_key, verify, utf8, concat, sha256}

  -- The texts that a signature may be of: the message itself, with the header in front, and the
  -- hash of that, for both kinds of line ends.
  abbrev pub payloads_of : List ℕ → List Bytes
  payloads_of m =
      let lf = concat (utf8 (header_text ++ 10 ∷ [])) (utf8 m) in
      let crlf = concat (utf8 (header_text ++ 13 ∷ 10 ∷ [])) (utf8 m) in
      utf8 m ∷ lf ∷ sha256 lf ∷ crlf ∷ sha256 crlf ∷ []

  abbrev pub payloads : List ℕ → List Bytes
  payloads text = payloads_of (to_lf text) ++ payloads_of (to_crlf (to_lf text))

  -- The first payload that is signed decides, or the first check that throws.
  abbrev pub scan : PublicKey → Bytes → List Bytes → Result Bool
  scan key sig [] = ok false
  scan key sig (p ∷ ps) = elim (verify key p sig) [
    | err e ↦ err e
    | ok true ↦ ok true
    | ok false ↦ scan key sig ps
  ]

  -- Some payload of the list is signed.
  abbrev pub IsSigned : PublicKey → Bytes → List Bytes → Type 0
  IsSigned key sig [] = ⊥
  IsSigned key sig (p ∷ ps) = (verify key p sig ≡ ok true) ⊎ IsSigned key sig ps

  module _ (key : PublicKey) (sig : Bytes) where
    or_next-scan :
        (p : Bytes) (ps : List Bytes)
        → or_next (verify key p sig) (scan key sig ps) ≡ scan key sig (p ∷ ps)
    or_next-scan p ps = elim (Result-cases (verify key p sig)) [
      | inl (true, e) ↦ ground arith
      | inl (false, e) ↦ ground arith
      | inr (x, e) ↦ ground arith
    ]

    abbrev signed : Bytes → List Bytes → List Bytes
    signed m [] = []
    signed m (q ∷ qs) = concat q m ∷ sha256 (concat q m) ∷ signed m qs

    try_prefixes-scan :
        (m : Bytes) (qs ps : List Bytes)
        → or_next (try_prefixes c key sig m qs) (scan key sig ps) ≡ scan key sig (signed m qs ++ ps)
    unfolding try_prefixes
    try_prefixes-scan m [] ps = refl
    try_prefixes-scan m (q ∷ qs) ps =
        rw
          (
            or_next_assoc (verify key (concat q m) sig) _ _,
            or_next_assoc (verify key (sha256 (concat q m)) sig) _ _,
            try_prefixes-scan m qs ps,
            or_next-scan (sha256 (concat q m)) (signed m qs ++ ps),
          )
          (or_next-scan (concat q m) (sha256 (concat q m) ∷ signed m qs ++ ps))

    try_messages-scan :
        (m : List ℕ) (ms : List (List ℕ)) (ps : List Bytes)
        → try_messages c key sig ms ≡ scan key sig ps
        → try_messages c key sig (m ∷ ms) ≡ scan key sig (payloads_of m ++ ps)
    unfolding try_messages
    try_messages-scan m ms ps h =
        rw (h, try_prefixes-scan (utf8 m) (prefixes c) ps)
          (or_next-scan (utf8 m) (signed (utf8 m) (prefixes c) ++ ps))

    scan-IsSigned : (ps : List Bytes) → scan key sig ps ≡ ok true → IsSigned key sig ps
    scan-IsSigned [] h = ground arith
    scan-IsSigned (p ∷ ps) h = elim (Result-cases (verify key p sig)) [
      | inl (true, e) ↦ inl e
      | inl (false, e) ↦ inr (scan-IsSigned ps (ground arith))
      | inr (x, e) ↦ ground arith
    ]

  -- The nested loops over line ends, prefixes and hashing try ten payloads in one fixed order and
  -- stop at the first one that is signed, or at the first check that throws.
  pub is_valid_signature_lem :
      (address signature expected : List ℕ) (key : PublicKey)
      → from_public_key address ≡ ok key
      → is_valid_signature c address signature expected
        ≡ scan key (signature_buffer c (normalize_signature signature)) (payloads expected)
  unfolding is_valid_signature try_messages
  is_valid_signature_lem address signature expected key h =
      let sig = signature_buffer c (normalize_signature signature) in
      rw (h, is_valid_signature)
        (try_messages-scan key sig (to_lf expected) (to_crlf (to_lf expected) ∷ [])
          (payloads_of (to_crlf (to_lf expected)))
          (try_messages-scan key sig (to_crlf (to_lf expected)) [] [] refl))

  invalid_key :
      (address signature expected : List ℕ) (x : Exception)
      → from_public_key address ≡ err x
      → is_valid_signature c address signature expected ≡ err x
  unfolding is_valid_signature
  invalid_key address signature expected x e = rw (e, is_valid_signature) refl

  accepted :
      (address signature expected : List ℕ)
      → check_signature c address signature expected ≡ ok tt
      → is_valid_signature c address signature expected ≡ ok true
  unfolding check_signature
  accepted address signature expected h =
      elim (Result-cases (is_valid_signature c address signature expected)) [
        | inl (true, e) ↦ e
        | inl (false, e) ↦ ground arith
        | inr (x, e) ↦ ground arith
      ]

  -- A login's signature is accepted only where the address is a public key, and the signature is
  -- that key's on one of the ten payloads that are made of the expected message.
  pub check_signature-IsSigned :
      (address signature expected : List ℕ)
      → check_signature c address signature expected ≡ ok tt
      → (key : PublicKey) × (from_public_key address ≡ ok key)
        × IsSigned key (signature_buffer c (normalize_signature signature)) (payloads expected)
  check_signature-IsSigned address signature expected h =
      let valid = accepted address signature expected h in
      elim (Result-cases (from_public_key address)) [
        | inl (key, e) ↦ (
          key,
          e,
          scan-IsSigned key (signature_buffer c (normalize_signature signature)) (payloads expected)
              (sym (is_valid_signature_lem address signature expected key e) ∙ valid),
        )
        | inr (x, e) ↦ ground (arith, invalid_key address signature expected x e)
      ]
