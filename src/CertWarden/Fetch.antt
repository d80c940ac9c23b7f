-- ===== src/CertWarden/Fetch.antt =====
-- internal/certwarden/client.go: `Fetch`, and what each of its outcomes says of the exchange.
use zoraxy_cert_warden.Base.{
  ℕ, zero, ap, subst, suc, ◌≤◌, ◌<◌, Bool, true, false, not, ◌||◌, Option, none, some, [], ◌∷◌,
  ◌++◌, Str, codes, ◌==◌, str_eq, nat_eq, if◌then◌else◌, ltb, leb, length, ◌≡◌, refl, sym, arith,
  ◌↔◌, inl, inr, if-cases,
}
use zoraxy_cert_warden.Text.{trim_space}
use zoraxy_cert_warden.Failure.{Result, ok, err}
use zoraxy_cert_warden.CertUtil.{Bytes, Crypto}
use zoraxy_cert_warden.CertWarden.{
  maximum_body_bytes, ErrorKind, kind_invalid_response, kind_response_too_large, FetchError, Client,
  status_error_kind, TransportError, transport_error_kind, take_bytes, split_material,
}

-- What the HTTP client answers: no response, or a status with what can be read of the body and
-- the error that ends the reading, if any.
pub data HttpReply : Type 0 where
  no_response : TransportError → HttpReply
  response : ℕ → Bytes → Option TransportError → HttpReply

-- net/http and net/url: the exchange with the server, which sees the URL and the API key; whether
-- a request can be made of a URL; `url.PathEscape`; and whether the context's deadline has passed.
pub record Http : Type 0 where
  pub exchange : Str → Str → HttpReply
  pub is_request_url : Str → Bool
  pub path_escape : Str → Str
  pub context_expired : Bool

-- What `Fetch` returns; the times are left out.
pub data Fetched : Type 0 where
  refused : FetchError → Fetched
  material : Bytes → Bytes → ℕ → Fetched

abbrev pub fetch_failure : ErrorKind → ℕ → Fetched
fetch_failure kind status = refused record { kind = kind; http_status = status }

abbrev pub endpoint : Http → Client → Str → Str
endpoint http c name =
    c.base_url ++ (codes "/certwarden/api/v1/download/privatecertchains/" ++ http.path_escape name)

take_bytes-all : (n : ℕ) (s : Bytes) → length (take_bytes n s) < n → take_bytes n s ≡ s
unfolding take_bytes
take_bytes-all zero s l = absurd (omega (arith, l))
take_bytes-all (suc n) [] l = refl
take_bytes-all (suc n) (c ∷ s) l = ap (λ t. c ∷ t) (take_bytes-all n s (omega (arith, l)))

take_bytes-short : (n : ℕ) (s : Bytes) → length s ≤ n → take_bytes n s ≡ s
unfolding take_bytes
take_bytes-short zero [] l = refl
take_bytes-short zero (c ∷ s) l = absurd (omega (arith, l))
take_bytes-short (suc n) [] l = refl
take_bytes-short (suc n) (c ∷ s) l = ap (λ t. c ∷ t) (take_bytes-short n s (omega (arith, l)))

not_above : (n limit : ℕ) → n ≤ limit → ltb limit n ≡ false
not_above n limit l = ground arith

module _ (k : Crypto) (http : Http) where
  unfoldable pub of_split : ℕ → Result (Bytes × Bytes) → Fetched
  of_split status (err e) = fetch_failure kind_invalid_response status
  of_split status (ok (certs, key)) = material certs key status

  -- What was read of the body, at most one byte more than may be.
  unfoldable pub of_body : ℕ → Bytes → Fetched
  unfolding of_split
  of_body status body =
      if ltb maximum_body_bytes (length body)
      then fetch_failure kind_response_too_large status
      else of_split status (split_material k body)

  -- The limited reader ends at the limit, so a body that is too long hides an error behind it.
  unfoldable pub of_read : ℕ → Bytes → Option TransportError → Fetched
  unfolding transport_error_kind of_body
  of_read status body (some e) =
      if ltb maximum_body_bytes (length body)
      then fetch_failure kind_response_too_large status
      else fetch_failure (transport_error_kind http.context_expired e) status
  of_read status body none = of_body status body

  unfoldable pub of_reply : HttpReply → Fetched
  unfolding transport_error_kind status_error_kind of_read take_bytes
  of_reply (no_response e) = fetch_failure (transport_error_kind http.context_expired e) 0
  of_reply (response status body e) =
      if ltb status 200 || leb 300 status
      then fetch_failure (status_error_kind status) status
      else of_read status (take_bytes (suc maximum_body_bytes) body) e

  -- `Fetch`
  unfoldable pub fetch_material : Client → Str → Fetched
  unfolding str_eq of_reply trim_space
  fetch_material c name =
      if trim_space name == []
      then fetch_failure kind_invalid_response 0
      else if not (http.is_request_url (endpoint http c name))
      then fetch_failure kind_invalid_response 0
      else of_reply (http.exchange (endpoint http c name) c.api_key)

  -- The exchange in which the material was downloaded.
  abbrev pub Downloaded : Client → Str → Bytes → Bytes → ℕ → Type 0
  Downloaded c name certs key status =
      (body : Bytes) × (http.exchange (endpoint http c name) c.api_key ≡ response status body none)
      × (200 ≤ status)
      × (status < 300)
      × (length body ≤ maximum_body_bytes)
      × (split_material k body ≡ ok (certs, key))

  of_split-material :
      (status : ℕ) (r : Result (Bytes × Bytes)) (certs key : Bytes) (n : ℕ)
      → (of_split status r ≡ material certs key n) ↔ ((status ≡ n) × (r ≡ ok (certs, key)))
  unfolding of_split
  of_split-material status (err e) certs key n = (λ h. cc, λ h. cc)
  of_split-material status (ok x) certs key n = (λ h. (cc, cc), λ h. cc)

  of_body-material :
      (status : ℕ) (body certs key : Bytes) (n : ℕ)
      → (of_body status body ≡ material certs key n) ↔ (
          (status ≡ n)
          × (length body ≤ maximum_body_bytes)
          × (split_material k body ≡ ok (certs, key)))
  unfolding of_body
  of_body-material status body certs key n =
      let s = of_split-material status (split_material k body) certs key n in
      (
        λ e. elim (if-cases (ltb maximum_body_bytes (length body)) e) [
          | inl (t, f) ↦ cc
          | inr (t, f) ↦ let (same, m) = s.0 f in (same, ground arith, m)
        ],
        λ (same, l, m). rw (not_above (length body) maximum_body_bytes l) (s.1 (same, m)),
      )

  whole_body :
      (status : ℕ) (body certs key : Bytes) (n : ℕ)
      → (of_body status (take_bytes (suc maximum_body_bytes) body) ≡ material certs key n) ↔ (
          (status ≡ n)
          × (length body ≤ maximum_body_bytes)
          × (split_material k body ≡ ok (certs, key)))
  whole_body status body certs key n =
      let read = take_bytes (suc maximum_body_bytes) body in
      let b = of_body-material status read certs key n in
      (
        λ e.
            let (same, l, m) = b.0 e in
            let whole = take_bytes-all (suc maximum_body_bytes) body (omega (arith, l)) in
            (
              same,
              subst (λ t. length t ≤ maximum_body_bytes) whole l,
              subst (λ t. split_material k t ≡ ok (certs, key)) whole m,
            ),
        λ (same, l, m).
            let whole = take_bytes-short (suc maximum_body_bytes) body (omega (arith, l)) in
            b.1 (
              same,
              subst (λ t. length t ≤ maximum_body_bytes) (sym whole) l,
              subst (λ t. split_material k t ≡ ok (certs, key)) (sym whole) m,
            ),
      )

  in_range : (n : ℕ) → ((ltb n 200 || leb 300 n) ≡ false) ↔ ((200 ≤ n) × (n < 300))
  in_range n = (λ e. (ground arith, ground arith), λ (l, h). ground arith)

  of_reply-material :
      (r : HttpReply) (certs key : Bytes) (n : ℕ)
      → of_reply r ≡ material certs key n
      → (body : Bytes) × (r ≡ response n body none)
        × (200 ≤ n)
        × (n < 300)
        × (length body ≤ maximum_body_bytes)
        × (split_material k body ≡ ok (certs, key))
  unfolding of_reply of_read
  of_reply-material (no_response x) certs key n e = cc
  of_reply-material (response status body (some x)) certs key n e =
      elim (if-cases (ltb status 200 || leb 300 status) e) [
        | inl (t, f) ↦ cc
        | inr (t, f) ↦
            elim (if-cases
              (ltb maximum_body_bytes (length (take_bytes (suc maximum_body_bytes) body))) f) [
                | inl (u, g) ↦ cc
                | inr (u, g) ↦ cc
              ]
      ]
  of_reply-material (response status body none) certs key n e =
      elim (if-cases (ltb status 200 || leb 300 status) e) [
        | inl (t, f) ↦ cc
        | inr (t, f) ↦
            let (same, l, m) = (whole_body status body certs key n).0 f in
            let (low, high) = (in_range status).0 t in
            (
              body,
              ap (λ z. response z body none) same,
              omega (arith, low, same),
              omega (arith, high, same),
              l,
              m,
            )
      ]

  reply-of_material :
      (body certs key : Bytes) (n : ℕ)
      → 200 ≤ n
      → n < 300
      → length body ≤ maximum_body_bytes
      → split_material k body ≡ ok (certs, key)
      → of_reply (response n body none) ≡ material certs key n
  unfolding of_reply of_read
  reply-of_material body certs key n low high l m =
      rw ((in_range n).1 (low, high)) ((whole_body n body certs key n).1 (refl, l, m))

  -- `Fetch` returns material exactly if the name is not blank, a request can be made of the
  -- endpoint, and the server answered it, for this API key, with a status of the 200s and a body
  -- that was read without error, is no longer than the limit, and splits into that material.
  pub fetch_material_iff :
      (c : Client) (name : Str) (certs key : Bytes) (status : ℕ)
      → (fetch_material c name ≡ material certs key status) ↔ (
          ((trim_space name == []) ≡ false)
          × (http.is_request_url (endpoint http c name) ≡ true)
          × Downloaded c name certs key status)
  unfolding fetch_material
  fetch_material_iff c name certs key status = (
    λ e. elim (if-cases (trim_space name == []) e) [
      | inl (t, f) ↦ cc
      | inr (t, f) ↦ elim (if-cases (not (http.is_request_url (endpoint http c name))) f) [
        | inl (u, g) ↦ cc
        | inr (u, g) ↦ (t, ground arith, of_reply-material _ certs key status g)
      ]
    ],
    λ (t, u, (body, e, low, high, l, m)).
        rw (t, u, e) (reply-of_material body certs key status low high l m),
  )
