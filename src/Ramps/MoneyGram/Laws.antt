-- ===== src/Ramps/MoneyGram/Laws.antt =====
-- What a success of the provider MONEYGRAM means.
use pay_era.Prelude.{
  ℕ, ◌≡◌, ◌≢◌, ◌↔◌, ◌⊎◌, inl, inr, refl, sym, ap, ◌∙◌, subst, false, Option, none, some, String,
  Result, ok, err, arith, Bool-cases, Option-cases, str_eq, eq_iff,
}
use pay_era.Ramps.Status.{RampStatus}
use pay_era.Ramps.Status.Laws.{map_status_iff}
use pay_era.Ramps.Provider.{InitiateParams, InitiateResult, StatusResult}
use pay_era.Ramps.MoneyGram.{
  Answer, threw, refused, answered, ChallengeData, TransactionData, Toml, Anchor, read_answer, bind,
  endpoint, parse_toml, get_toml, sign_challenge, check_token, authenticate, initiate_off_ramp,
  get_status, is_other_network, status_result, money_gram,
}

-- What a success of a sequence says of its two parts.
bind_inversion :
    {A B : Type 0} (r : Result A) (f : A → Result B) (b : B)
    → bind r f ≡ ok b
    → (a : A) × ((r ≡ ok a) × (f a ≡ ok b))
bind_inversion (ok a) f b h = (a, (refl, h))
bind_inversion (err e) f b h = ground arith

read_answer_inversion :
    {A : Type 0} (text : String) (x : Answer A) (a : A) → read_answer text x ≡ ok a → x ≡ answered a
read_answer_inversion text (threw e) a h = ground arith
read_answer_inversion text refused a h = ground arith
read_answer_inversion text (answered b) a h = ground arith

non_empty : (o : Option String) (t : String) → endpoint o ≡ some t → (o ≡ some t) × (t ≢ "")
non_empty none t h = ground arith
non_empty (some u) t h = elim (Bool-cases (str_eq u "")) [
  | inl empty ↦ ground arith
  | inr full ↦
      let own : u ≡ t = ground arith in
      (ap some own, λ e. ground (arith, (eq_iff u "").1 (own ∙ e)))
]

module _ (anchor : Anchor) where
  -- The stellar.toml that an operation fetched names both endpoints.
  pub record IsNamed (operation : String) (call : ℕ) (toml : Toml) : Type 0 where
    pub text : String
    pub fetched : anchor.toml operation call ≡ answered text
    pub server : anchor.transfer_server text ≡ some toml.transfer_server_url
    pub auth : anchor.web_auth text ≡ some toml.web_auth_endpoint
    pub present : (toml.transfer_server_url ≢ "") × (toml.web_auth_endpoint ≢ "")

  parse_toml_inversion :
      (text : String) (toml : Toml)
      → parse_toml anchor text ≡ ok toml
      → (endpoint (anchor.transfer_server text) ≡ some toml.transfer_server_url)
        × (endpoint (anchor.web_auth text) ≡ some toml.web_auth_endpoint)
  unfolding parse_toml
  parse_toml_inversion text toml h = elim (Option-cases (endpoint (anchor.transfer_server text))) [
    | inl e ↦ ground arith
    | inr (server, e) ↦ elim (Option-cases (endpoint (anchor.web_auth text))) [
      | inl f ↦ ground arith
      | inr (auth, f) ↦ (ground arith, ground arith)
    ]
  ]

  get_toml-IsNamed :
      (operation : String) (call : ℕ) (toml : Toml)
      → get_toml anchor operation call ≡ ok toml
      → IsNamed operation call toml
  unfolding get_toml
  get_toml-IsNamed operation call toml h =
      let (text, (got, parsed)) = bind_inversion _ (parse_toml anchor) toml h in
      let (server, auth) = parse_toml_inversion text toml parsed in
      let (its_server, server_there) = non_empty (anchor.transfer_server text) _ server in
      let (its_auth, auth_there) = non_empty (anchor.web_auth text) _ auth in
      record {
        text = text;
        fetched = read_answer_inversion _ _ text got;
        server = its_server;
        auth = its_auth;
        present = (server_there, auth_there);
      }

  -- The steps of a successful authentication.
  pub record IsAuthenticated (call : ℕ) (address token : String) : Type 0 where
    pub toml : Toml
    pub named : IsNamed "authenticate" call toml
    pub challenge : ChallengeData
    pub xdr : String
    pub challenged :
        anchor.challenge call toml.web_auth_endpoint address anchor.app_home_domain
        ≡ answered challenge
    -- The challenge is for the platform's network, or names none.
    pub network :
        (challenge.network_passphrase ≡ none)
        ⊎ ((challenge.network_passphrase ≡ some "")
            ⊎ (challenge.network_passphrase ≡ some anchor.passphrase))
    pub signed : anchor.sign anchor.passphrase challenge.transaction ≡ ok xdr
    pub exchanged : anchor.token call toml.web_auth_endpoint xdr ≡ answered token
    pub present : token ≢ ""

  own_network :
      (c : ChallengeData)
      → is_other_network anchor c ≡ false
      → (c.network_passphrase ≡ none)
        ⊎ ((c.network_passphrase ≡ some "") ⊎ (c.network_passphrase ≡ some anchor.passphrase))
  own_network c h = elim (Option-cases c.network_passphrase) [
    | inl e ↦ inl e
    | inr (p, e) ↦ elim (Bool-cases (str_eq p "")) [
      | inl empty ↦ inr (inl (e ∙ ap some ((eq_iff p "").0 empty)))
      | inr full ↦ inr (inr (e ∙ ap some ((eq_iff p anchor.passphrase).0 (ground arith))))
    ]
  ]

  sign_challenge_inversion :
      (c : ChallengeData) (xdr : String)
      → sign_challenge anchor c ≡ ok xdr
      → (is_other_network anchor c ≡ false) × (anchor.sign anchor.passphrase c.transaction ≡ ok xdr)
  unfolding sign_challenge
  sign_challenge_inversion c xdr h = elim (Bool-cases (is_other_network anchor c)) [
    | inl other ↦ ground arith
    | inr own ↦ (own, ground arith)
  ]

  check_token_inversion :
      (t token : String) → check_token anchor t ≡ ok token → (t ≡ token) × (token ≢ "")
  unfolding check_token
  check_token_inversion t token h = elim (Bool-cases (str_eq t "")) [
    | inl empty ↦ ground arith
    | inr full ↦
        let own : t ≡ token = ground arith in (own, λ e. ground (arith, (eq_iff t "").1 (own ∙ e)))
  ]

  -- SEP-10 gives a token only after the anchor, at the endpoint that its stellar.toml names, sent a
  -- challenge for this account that names the platform's network, or no network or an empty one, this
  -- was signed for the platform's network, and the anchor took it; the token is not empty.
  pub authenticate-IsAuthenticated :
      (call : ℕ) (address token : String)
      → (money_gram anchor).authenticate call address ≡ ok token
      → IsAuthenticated call address token
  unfolding money_gram authenticate
  authenticate-IsAuthenticated call address token h =
      let (toml, (parsed, h1)) = bind_inversion (get_toml anchor "authenticate" call) _ token h in
      let (c, (asked, h2)) = bind_inversion _ _ token h1 in
      let (xdr, (sent, h3)) = bind_inversion (sign_challenge anchor c) _ token h2 in
      let (t, (got, h4)) = bind_inversion _ (check_token anchor) token h3 in
      let (own, signed) = sign_challenge_inversion c xdr sent in
      let (same, full) = check_token_inversion t token h4 in
      record {
        toml = toml;
        named = get_toml-IsNamed "authenticate" call toml parsed;
        challenge = c;
        xdr = xdr;
        challenged = read_answer_inversion _ _ c asked;
        network = own_network c own;
        signed = signed;
        exchanged = read_answer_inversion _ _ t got ∙ ap answered same;
        present = full;
      }

  -- A report, field by field, of what the anchor answered at the endpoint of its stellar.toml.
  pub record IsReport (call : ℕ) (token id : String) (r : StatusResult) : Type 0 where
    pub toml : Toml
    pub named : IsNamed "status" call toml
    pub reply : TransactionData
    pub asked : anchor.transaction call toml.transfer_server_url token id ≡ answered reply
    pub raw : r.raw_status ≡ reply.status
    pub amounts :
        (r.amount_in ≡ reply.amount_in)
        × ((r.amount_out ≡ reply.amount_out) × (r.amount_fee ≡ reply.amount_fee))
    pub memo :
        (r.stellar_memo ≡ reply.withdraw_memo) × (r.stellar_memo_type ≡ reply.withdraw_memo_type)
    pub account : r.anchor_account ≡ reply.withdraw_anchor_account
    pub hash : r.stellar_tx_hash ≡ reply.stellar_transaction_id
    pub reference : r.reference_number ≡ reply.external_transaction_id
    pub is_completed : (r.status ≡ RampStatus.completed) ↔ (reply.status ≡ "completed")
    pub is_refunded : (r.status ≡ RampStatus.refunded) ↔ (reply.status ≡ "refunded")

  status_result-IsReport :
      (call : ℕ) (token id : String) (toml : Toml) (t : TransactionData)
      → IsNamed "status" call toml
      → anchor.transaction call toml.transfer_server_url token id ≡ answered t
      → IsReport call token id (status_result anchor t)
  status_result-IsReport call token id toml t named asked = record {
    toml = toml;
    named = named;
    reply = t;
    asked = asked;
    raw = refl;
    amounts = (refl, (refl, refl));
    memo = (refl, refl);
    account = refl;
    hash = refl;
    reference = refl;
    is_completed = (map_status_iff t.status).0;
    is_refunded = (map_status_iff t.status).1;
  }

  -- A status that the provider reports is the anchor's answer, from the endpoint that its
  -- stellar.toml names: the raw status, the amounts, the memo, the account, the hash and the
  -- reference are copied, and COMPLETED and REFUNDED are reported exactly where the anchor says
  -- "completed" and "refunded".
  pub get_status-IsReport :
      (call : ℕ) (token id : String) (r : StatusResult)
      → (money_gram anchor).get_status call token id ≡ ok r
      → IsReport call token id r
  unfolding money_gram get_status
  get_status-IsReport call token id r h =
      let (toml, (parsed, h1)) = bind_inversion (get_toml anchor "status" call) _ r h in
      let (t, (got, h2)) = bind_inversion _ _ r h1 in
      let own : r ≡ status_result anchor t = ground arith in
      subst (IsReport call token id) (sym own) (
        status_result-IsReport call token id toml t (get_toml-IsNamed "status" call toml parsed)
          (read_answer_inversion _ _ t got))

  -- An off-ramp without an amount is refused before the anchor is asked for anything.
  pub initiate_off_ramp-amount :
      (call : ℕ) (token : String) (params : InitiateParams) (r : InitiateResult)
      → (money_gram anchor).initiate_off_ramp call token params ≡ ok r
      → (a : String) × ((params.amount ≡ some a) × (a ≢ ""))
  unfolding money_gram initiate_off_ramp
  initiate_off_ramp-amount call token params r h = elim (Option-cases params.amount) [
    | inl e ↦ ground arith
    | inr (a, e) ↦ (a, (e, λ empty. ground (arith, (eq_iff a "").1 empty)))
  ]
