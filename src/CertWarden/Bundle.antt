-- ===== src/CertWarden/Bundle.antt =====
-- internal/certwarden/client.go: the responses that `splitMaterial` should accept, and what it does
-- with one block of them.
use zoraxy_cert_warden.Base.{
  ℕ, zero, suc, ◌+◌, ◌<◌, Bool, true, false, not, Option, none, some, List, [], ◌∷◌, ◌++◌, Str,
  codes, str_eq, nat_eq, if◌then◌else◌, length, ◌≡◌, ◌≢◌, refl, arith, ◌↔◌, ◌⊎◌, inl, inr,
  Bool-cases, if-cases,
}
use zoraxy_cert_warden.Failure.{Error, Result, ok, err}
use zoraxy_cert_warden.CertUtil.{Bytes, Block, Certificate, Crypto, is_blank}
use zoraxy_cert_warden.CertWarden.{
  is_certificate_type, is_key_type, keep_certificate, keep_key, next_block, add_block,
  parse_key_block, find_mark, take_bytes, push,
}
use zoraxy_cert_warden.Text.{has_prefix}

-- A block of the response, with its text.
abbrev pub Item : Type 0
Item = Block × Bytes

module _ (k : Crypto) where
  -- The blocks that the rounds of the loop take.
  pub data Looped : Bytes → List Item → Type 0 where
    end : {s : Bytes} → is_blank s ≡ true → Looped s []
    next :
        {s remaining encoded : Bytes} {block : Block} {items : List Item}
        → is_blank s ≡ false
        → next_block k s ≡ ok (block, (encoded, remaining))
        → Looped remaining items
        → Looped s ((block, encoded) ∷ items)

  -- The block is a certificate that can be parsed.
  abbrev pub IsCertificate : Block → Type 0
  IsCertificate block =
      (block.block_type ≡ codes "CERTIFICATE")
      × ((c : Certificate) × (k.parse_certificate block.bytes ≡ ok c))

  -- The block is a private key that can be parsed in the format of its type.
  abbrev pub IsPrivateKey : Block → Type 0
  IsPrivateKey block =
      ((block.block_type ≡ codes "RSA PRIVATE KEY") × (k.parse_pkcs1 block.bytes ≡ ok tt))
      ⊎ ((block.block_type ≡ codes "EC PRIVATE KEY") × (k.parse_ec block.bytes ≡ ok tt))
      ⊎ ((block.block_type ≡ codes "PRIVATE KEY") × (k.parse_pkcs8 block.bytes ≡ ok tt))

  -- The blocks are certificates, in this order, and at most one private key.
  pub data Bundle : List Item → Bytes → Bytes → Type 0 where
    nothing : Bundle [] [] []
    certificate :
        {block : Block} {encoded certs key : Bytes} {items : List Item}
        → IsCertificate block
        → Bundle items certs key
        → Bundle ((block, encoded) ∷ items) (encoded ++ certs) key
    private_key :
        {block : Block} {encoded certs : Bytes} {items : List Item}
        → IsPrivateKey block
        → Bundle items certs []
        → Bundle ((block, encoded) ∷ items) certs encoded

  -- What one round adds.
  unfoldable pub Added : Bytes → Bytes → Block → Bytes → Bytes × Bytes → Type 0
  Added certs key block encoded x =
      (IsCertificate block × (x ≡ (certs ++ encoded, key)))
      ⊎ (IsPrivateKey block × (key ≡ []) × (x ≡ (certs, encoded)))

  keep_certificate-ok :
      (r : Result Certificate) (certs key encoded : Bytes) (x : Bytes × Bytes)
      → (keep_certificate k r certs key encoded ≡ ok x)
        ↔ (((c : Certificate) × (r ≡ ok c)) × (x ≡ (certs ++ encoded, key)))
  unfolding keep_certificate
  keep_certificate-ok (err e) certs key encoded x = (λ h. cc, λ h. cc)
  keep_certificate-ok (ok c) certs key encoded x = (λ h. ((c, refl), cc), λ h. cc)

  keep_key-ok :
      (r : Result (Unit {0})) (certs key encoded : Bytes) (x : Bytes × Bytes)
      → (keep_key k r certs key encoded ≡ ok x)
        ↔ ((r ≡ ok tt) × (key ≡ []) × (x ≡ (certs, encoded)))
  unfolding keep_key
  keep_key-ok (err e) certs key encoded x = (λ h. cc, λ h. cc)
  keep_key-ok (ok u) certs [] encoded x = (λ h. (refl, refl, cc), λ h. cc)
  keep_key-ok (ok u) certs (b ∷ key) encoded x = (λ h. cc, λ h. cc)

  not_both : (t : Str) → is_certificate_type t ≡ true → is_key_type t ≡ true → ⊥
  unfolding is_certificate_type is_key_type str_eq
  not_both t c e = ground arith

  key_type-no_certificate : (t : Str) → is_key_type t ≡ true → is_certificate_type t ≡ false
  key_type-no_certificate t e = elim (Bool-cases (is_certificate_type t)) [
    | inl c ↦ absurd (not_both t c e)
    | inr c ↦ c
  ]

  certificate_type_iff : (t : Str) → (is_certificate_type t ≡ true) ↔ (t ≡ codes "CERTIFICATE")
  unfolding is_certificate_type str_eq
  certificate_type_iff t = (λ e. ground arith, λ e. ground arith)

  key_of_type :
      (block : Block)
      → is_key_type block.block_type ≡ true
      → parse_key_block k block ≡ ok tt
      → IsPrivateKey block
  unfolding is_key_type parse_key_block str_eq
  key_of_type block t p = ground arith

  type_of_key :
      (block : Block)
      → IsPrivateKey block
      → (is_key_type block.block_type ≡ true) × (parse_key_block k block ≡ ok tt)
  unfolding is_key_type parse_key_block str_eq
  type_of_key block p = ground arith

  pub add_block-Added :
      (certs key : Bytes) (block : Block) (encoded : Bytes) (x : Bytes × Bytes)
      → add_block k certs key block encoded ≡ ok x
      → Added certs key block encoded x
  unfolding add_block Added
  add_block-Added certs key block encoded x e =
      let c = keep_certificate-ok (k.parse_certificate block.bytes) certs key encoded x in
      let d = keep_key-ok (parse_key_block k block) certs key encoded x in
      elim (if-cases (is_certificate_type block.block_type) e) [
        | inl (t, f) ↦
            let (p, same) = c.0 f in inl (((certificate_type_iff block.block_type).0 t, p), same)
        | inr (t, f) ↦ elim (if-cases (is_key_type block.block_type) f) [
          | inl (t', f') ↦
              let (p, empty, same) = d.0 f' in inr (key_of_type block t' p, empty, same)
          | inr (t', f') ↦ cc
        ]
      ]

  pub Added-add_block :
      (certs key : Bytes) (block : Block) (encoded : Bytes) (x : Bytes × Bytes)
      → Added certs key block encoded x
      → add_block k certs key block encoded ≡ ok x
  unfolding add_block Added
  Added-add_block certs key block encoded x (inl ((c, p), same)) =
      let t = (certificate_type_iff block.block_type).1 c in
      rw t ((keep_certificate-ok (k.parse_certificate block.bytes) certs key encoded x).1 (p, same))
  Added-add_block certs key block encoded x (inr (i, empty, same)) =
      let (t, p) = type_of_key block i in
      let n = key_type-no_certificate block.block_type t in
      rw (n, t) ((keep_key-ok (parse_key_block k block) certs key encoded x).1 (p, empty, same))

  -- Of the key so far and that of the rest, at most one is there.
  unfoldable pub Joined : Bytes → Bytes → Bytes → Type 0
  Joined key later p = ((key ≡ []) × (p ≡ later)) ⊎ ((later ≡ []) × (p ≡ key))

  pub push-some :
      (c : ℕ) (o : Option (Bytes × Bytes)) (before from : Bytes)
      → push c o ≡ some (before, from)
      → (later : Bytes) × (o ≡ some (later, from)) × (before ≡ c ∷ later)
  unfolding push
  push-some c none before from e = cc
  push-some c (some (b, f)) before from e = (b, ground arith, ground arith)

  pub find_mark-length :
      (mark s before from : Bytes)
      → find_mark mark s ≡ some (before, from)
      → length before + length from ≡ length s
  unfolding find_mark
  find_mark-length mark [] before from e = cc
  find_mark-length mark (c ∷ s) before from e = elim (Bool-cases (has_prefix (c ∷ s) mark)) [
    | inl h ↦ ground arith
    | inr h ↦
        let (later, l, same) = push-some c (find_mark mark s) before from (ground arith) in
        ground (arith, find_mark-length mark s later from l)
  ]

  pub take_bytes-nil : (n : ℕ) (s : Bytes) → 0 < n → 0 < length s → take_bytes n s ≢ []
  unfolding take_bytes
  take_bytes-nil zero s h l = absurd (omega (arith, h))
  take_bytes-nil (suc n) [] h l = absurd (omega (arith, l))
  take_bytes-nil (suc n) (c ∷ s) h l = λ e. cc

  pub if_not_rejected :
      {A : Type 0} (b : Bool) (e : Error) (r : Result A) (a : A)
      → (if not b then err e else r) ≡ ok a
      → r ≡ ok a
  if_not_rejected true e r a h = h
  if_not_rejected false e r a h = cc
