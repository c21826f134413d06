-- ===== src/Payments/Settlement/Issuing.antt =====
-- The access token's life.
use pay_era.Prelude.{
  ℕ, ◌+◌, ◌*◌, ◌<◌, ◌≡◌, ◌≢◌, ◌⊎◌, inl, inr, refl, sym, ap, ◌∙◌, subst, none, some, List, [], ◌∷◌,
  String, ok, err, Exception, arith, Bool-cases, Option-cases, Result-cases, str_eq, eq_iff, ltb,
  ltb→lt, ◌&&◌,
}
use pay_era.Payments.Settlement.{
  Answer, threw, refused, answered, DecentroAuthResponse, Session, Clock, is_set, cached_token,
  issued_token, fetched_token, get_access_token,
}

abbrev pub Request : Type 0
Request = Clock × Answer DecentroAuthResponse

-- The session after requests for a token, the latest one first.
unfoldable pub after : List Request → Session
after [] = record { access_token = none; token_expiry = 0 }
after ((clock, answer) ∷ earlier) = (get_access_token clock answer (after earlier)).1

-- Decentro answered "success" with this token, which is not empty and is good until `expiry`.
abbrev pub IsIssued : Request → String → ℕ → Type 0
IsIssued (clock, answer) token expiry =
    (r : DecentroAuthResponse) × ((answer ≡ answered r)
      × (((r.status ≡ "success") × ((r.access_token ≡ some token) × (token ≢ "")))
          × (expiry ≡ clock.received + r.expires_in * 1000)))

issued_token_lem :
    (r : DecentroAuthResponse) (t : String)
    → issued_token r ≡ ok t
    → (r.status ≡ "success") × ((r.access_token ≡ some t) × (t ≢ ""))
unfolding issued_token
issued_token_lem r t h = elim (Option-cases r.access_token) [
  | inl e ↦ ground arith
  | inr (u, e) ↦ elim (Bool-cases (str_eq r.status "success" && is_set u)) [
    | inr b ↦ ground arith
    | inl b ↦
        let own : u ≡ t = ground arith in
        (
          (eq_iff r.status "success").0 (ground arith),
          (e ∙ ap some own, λ empty. ground (arith, (eq_iff u "").1 (own ∙ empty))),
        )
  ]
]

abbrev pub IsIssuedIn : List Request → String → ℕ → Type 0
IsIssuedIn [] token expiry = ⊥
IsIssuedIn (q ∷ earlier) token expiry = IsIssued q token expiry ⊎ IsIssuedIn earlier token expiry

-- A token that was fetched was issued with the answer.
fetched_token-IsIssued :
    (clock : Clock) (answer : Answer DecentroAuthResponse) (t : String) (n : ℕ)
    → fetched_token answer ≡ ok (t, n)
    → IsIssued (clock, answer) t (clock.received + n * 1000)
fetched_token-IsIssued clock (threw e) t n h = ground arith
fetched_token-IsIssued clock (refused x) t n h = ground arith
fetched_token-IsIssued clock (answered r) t n h = elim (Result-cases (issued_token r)) [
  | inl (u, e) ↦
      let own : u ≡ t = ground arith in
      (r, (refl, (issued_token_lem r t (e ∙ ap ok own), ground arith)))
  | inr (x, e) ↦ ground arith
]

cached_token_lem :
    (now : ℕ) (s : Session) (t : String)
    → cached_token now s ≡ some t
    → (s.access_token ≡ some t) × (now + 60000 < s.token_expiry)
unfolding cached_token
cached_token_lem now s t h = elim (Option-cases s.access_token) [
  | inl e ↦ (ground arith, ground arith)
  | inr (u, e) ↦ elim (Bool-cases (is_set u && ltb (now + 60000) s.token_expiry)) [
    | inl b ↦ (ground arith, ltb→lt (now + 60000) s.token_expiry (ground arith))
    | inr b ↦ (ground arith, ground arith)
  ]
]

get_access_token-cached :
    (clock : Clock) (answer : Answer DecentroAuthResponse) (s : Session) (t : String)
    → cached_token clock.now s ≡ some t
    → get_access_token clock answer s ≡ (ok t, s)
unfolding get_access_token
get_access_token-cached clock answer s t h = rw (h, get_access_token) refl

get_access_token-fetched :
    (clock : Clock) (answer : Answer DecentroAuthResponse) (s : Session) (t : String) (n : ℕ)
    → cached_token clock.now s ≡ none
    → fetched_token answer ≡ ok (t, n)
    → get_access_token clock answer s
      ≡ (ok t, record { access_token = some t; token_expiry = clock.received + n * 1000 })
unfolding get_access_token
get_access_token-fetched clock answer s t n h k = rw (h, k, get_access_token) refl

get_access_token-failed :
    (clock : Clock) (answer : Answer DecentroAuthResponse) (s : Session) (x : Exception)
    → cached_token clock.now s ≡ none
    → fetched_token answer ≡ err x
    → get_access_token clock answer s ≡ (err x, s)
unfolding get_access_token
get_access_token-failed clock answer s x h k = rw (h, k, get_access_token) refl

-- The session after a request is the one before, or holds a token that has just come.
session_cases :
    (q : Request) (s : Session)
    → ((get_access_token q.0 q.1 s).1 ≡ s)
      ⊎ ((t : String) × (((get_access_token q.0 q.1 s).1.access_token ≡ some t)
            × IsIssued q t (get_access_token q.0 q.1 s).1.token_expiry))
session_cases (clock, answer) s = elim (Option-cases (cached_token clock.now s)) [
  | inr (t, h) ↦ inl (ap (λ x. x.1) (get_access_token-cached clock answer s t h))
  | inl h ↦ elim (Result-cases (fetched_token answer)) [
    | inl ((t, n), k) ↦
        rw (get_access_token-fetched clock answer s t n h k)
          (inr (t, (refl, fetched_token-IsIssued clock answer t n k)))
    | inr (x, k) ↦ inl (ap (λ y. y.1) (get_access_token-failed clock answer s x h k))
  ]
]

-- The token that a session holds was issued to it, until the time that it notes.
after-IsIssued :
    (qs : List Request) (t : String)
    → (after qs).access_token ≡ some t
    → IsIssuedIn qs t (after qs).token_expiry
unfolding after
after-IsIssued [] t h = ground arith
after-IsIssued (q ∷ qs) t h = elim (session_cases q (after qs)) [
  | inl same ↦ inr (
      subst (λ s. IsIssuedIn qs t s.token_expiry) (sym same)
        (after-IsIssued qs t (subst (λ s. s.access_token ≡ some t) same h)))
  | inr (u, (holds, issued)) ↦
      let own : u ≡ t = ground arith in
      inl
        (subst (λ v. IsIssued q v (get_access_token q.0 q.1 (after qs)).1.token_expiry) own issued)
]

-- A token that `getAccessToken` returns is one that Decentro issued with "success" to an earlier
-- call, and that is good for more than a minute from now, or the one that Decentro has just issued
-- with "success", of whatever life; it is never empty, whatever the calls before it met.
pub get_access_token-IsIssued :
    (earlier : List Request) (clock : Clock) (answer : Answer DecentroAuthResponse) (t : String)
    → (get_access_token clock answer (after earlier)).0 ≡ ok t
    → ((expiry : ℕ) × ((clock.now + 60000 < expiry) × IsIssuedIn earlier t expiry))
      ⊎ ((expiry : ℕ) × IsIssued (clock, answer) t expiry)
get_access_token-IsIssued earlier clock answer t h =
    let s = after earlier in
    elim (Option-cases (cached_token clock.now s)) [
      | inr (u, k) ↦
          let (holds, good) = cached_token_lem clock.now s u k in
          let own : u ≡ t = ground (arith, get_access_token-cached clock answer s u k) in
          inl (s.token_expiry, (good, after-IsIssued earlier t (holds ∙ ap some own)))
      | inl k ↦ elim (Result-cases (fetched_token answer)) [
        | inl ((u, n), f) ↦
            let own : u ≡ t = ground (arith, get_access_token-fetched clock answer s u n k f) in
            inr (
              clock.received + n * 1000,
              subst (λ v. IsIssued (clock, answer) v (clock.received + n * 1000)) own
                  (fetched_token-IsIssued clock answer u n f),
            )
        | inr (x, f) ↦ ground (arith, get_access_token-failed clock answer s x k f)
      ]
    ]
