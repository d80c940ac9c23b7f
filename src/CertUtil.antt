-- ===== src/CertUtil.antt =====
-- internal/certutil/certutil.go: validation of a certificate chain and its private key.
-- The cryptographic library is the parameter `Crypto`; times are nanoseconds.
pub mod Digest
pub mod Loops
pub mod Keys
use zoraxy_cert_warden.Base.{
  String, ℕ, zero, suc, ◌+◌, ◌/◌, ◌%◌, ◌^◌, Bool, true, false, not, ◌&&◌, ◌||◌, Option, none, some,
  List, [], ◌∷◌, ◌++◌, Str, codes, ◌==◌, str_eq, nat_eq, if◌then◌else◌, leb, ltb, length,
}
use zoraxy_cert_warden.Base.Int.{ℤ, pos, ltb_ℤ}
use zoraxy_cert_warden.Text.{has_prefix, decimal}
use zoraxy_cert_warden.Failure.{
  errorf, wrapf, new, wrap, Result, ok, err, ◌>>=◌, ◌>>◌, reject, within,
}

-- Bytes, each below 256.
abbrev pub Bytes : Type 0
Bytes = List ℕ

-- `x509.Certificate`, by the fields that the program reads.
pub record Certificate : Type 0 where
  pub raw : Bytes
  pub raw_issuer : Bytes
  pub raw_subject : Bytes
  pub not_before : ℕ
  pub not_after : ℕ
  pub is_ca : Bool
  pub ext_key_usage : List ℕ
  pub max_path_len : ℤ
  pub dns_names : List Str
  pub common_name : Str
  pub issuer_name : Str
  pub serial : Str

-- `pem.Block`, by the fields that the program reads.
pub record Block : Type 0 where
  pub block_type : Str
  pub bytes : Bytes

-- `CertInfo`; the leaf is the first certificate of the chain.
pub record CertInfo : Type 0 where
  pub certificate : Certificate
  pub chain : List Certificate
  pub fingerprint : Str
  pub leaf_fingerprint : Str
  pub bundle_digest : Str

-- What the program calls of crypto/tls, crypto/x509, crypto/sha256, encoding/pem and time.
pub record Crypto : Type 0 where
  -- `tls.X509KeyPair`: the private key's public half, `none` if it is no `crypto.Signer`.
  pub x509_key_pair : Bytes → Bytes → Result (Option Bytes)
  pub parse_certificate : Bytes → Result Certificate
  pub check_signature_from : Certificate → Certificate → Result (Unit {0})
  pub parse_pkcs1 : Bytes → Result (Unit {0})
  pub parse_ec : Bytes → Result (Unit {0})
  pub parse_pkcs8 : Bytes → Result (Unit {0})
  -- `x509.MarshalPKIXPublicKey`
  pub marshal_public_key : Bytes → Result Bytes
  pub sha256 : Bytes → Bytes
  -- `pem.Decode`: the first block and what follows it.
  pub pem_decode : Bytes → Option (Block × Bytes)
  pub now : ℕ

-- `x509.ExtKeyUsageAny` and `x509.ExtKeyUsageServerAuth`
abbrev pub ext_key_usage_any : ℕ
ext_key_usage_any = 0

abbrev pub ext_key_usage_server_auth : ℕ
ext_key_usage_server_auth = 1

has_server_usage : List ℕ → Bool
unfolding nat_eq
has_server_usage [] = false
has_server_usage (u ∷ us) =
    (u == ext_key_usage_server_auth || u == ext_key_usage_any) || has_server_usage us

unfoldable pub allows_server_use : Certificate → Bool
unfolding has_server_usage
allows_server_use cert = elim cert.ext_key_usage [ [] ↦ true | u ∷ us ↦ has_server_usage (u ∷ us) ]

hex_digit : ℕ → ℕ
hex_digit n = if leb n 9 then b'0' + n else 87 + n

-- `hex.EncodeToString`
unfoldable pub hex : Bytes → Str
unfolding hex_digit
hex [] = []
hex (b ∷ bs) = hex_digit (b / 16) ∷ hex_digit (b % 16) ∷ hex bs

-- `binary.BigEndian.PutUint64`
unfoldable pub put_uint64 : ℕ → Bytes
put_uint64 n =
    (n / 2 ^ 56 % 256)
    ∷ (n / 2 ^ 48 % 256)
    ∷ (n / 2 ^ 40 % 256)
    ∷ (n / 2 ^ 32 % 256)
    ∷ (n / 2 ^ 24 % 256)
    ∷ (n / 2 ^ 16 % 256)
    ∷ (n / 2 ^ 8 % 256)
    ∷ (n % 256)
    ∷ []

-- What `writeDigestPart` writes: the length as a uint64, then the bytes.
unfoldable pub digest_part : Bytes → Bytes
unfolding put_uint64
digest_part part = put_uint64 (length part) ++ part

unfoldable pub digest_parts : List Bytes → Bytes
unfolding digest_part
digest_parts [] = []
digest_parts (p ∷ ps) = digest_part p ++ digest_parts ps

unfoldable pub raws : List Certificate → List Bytes
raws [] = []
raws (c ∷ cs) = c.raw ∷ raws cs

-- All that `bundleDigest` hashes.
unfoldable pub digest_input : List Certificate → Bytes → Bytes
unfolding digest_parts raws
digest_input chain public_der =
    codes "cert-bundle-v1" ++ (0 ∷ digest_parts (raws chain ++ (public_der ∷ [])))

unfoldable pub is_private_key_type : Str → Bool
unfolding str_eq
is_private_key_type t =
    t == codes "RSA PRIVATE KEY"
    || t == codes "EC PRIVATE KEY"
    || t == codes "PRIVATE KEY"
    || t == codes "ENCRYPTED PRIVATE KEY"

-- `len(bytes.TrimSpace(s)) == 0`; the white space is that of ASCII.
unfoldable pub is_blank : Bytes → Bool
unfolding nat_eq
is_blank [] = true
is_blank (b ∷ bs) = ((leb 9 b && leb b 13) || b == 32) && is_blank bs

-- `bytes.Index(s, sep)`, as the text before the first occurrence.
unfoldable pub before_text : Str → Str → Option Str
unfolding has_prefix
before_text [] sep = if has_prefix [] sep then some [] else none
before_text (c ∷ s) sep =
    let rest = before_text s sep in
    if has_prefix (c ∷ s) sep then some [] else elim rest [ none ↦ none | some t ↦ some (c ∷ t) ]

-- The rest begins with a PEM block, but for white space: the test before each `pem.Decode`.
unfoldable pub begins_block : Bytes → Bool
unfolding before_text is_blank
begins_block rest = elim (before_text rest (codes "-----BEGIN ")) [
  | none ↦ false
  | some before ↦ is_blank before
]

-- `fmt.Errorf("certificate %d text", i)`
unfoldable pub numbered : ℕ → String → Str
unfolding decimal
numbered i text = codes "certificate " ++ (decimal i ++ codes text)

-- The validity period of each certificate from the index `i` on, by the clock.
unfoldable pub check_validity : ℕ → ℕ → List Certificate → Result (Unit {0})
unfolding numbered
check_validity now i [] = ok tt
check_validity now i (c ∷ cs) = do
  reject (ltb now c.not_before) (errorf (numbered i " is not yet valid"))
  reject (ltb c.not_after now) (errorf (numbered i " has expired"))
  check_validity now (suc i) cs

is_self_issued : Certificate → Bool
unfolding str_eq
is_self_issued c = c.raw_subject == c.raw_issuer

-- How many of the certificates are issued by another name.
unfoldable pub count_cross_issued : List Certificate → ℕ
unfolding is_self_issued
count_cross_issued [] = 0
count_cross_issued (c ∷ cs) = let n = count_cross_issued cs in if is_self_issued c then n else suc n

module _ (k : Crypto) where
  -- The round `i` of the loop of `validatePresentedChain`, where `below` holds chain[1..i].
  unfoldable pub check_link : ℕ → List Certificate → Certificate → Certificate → Result (Unit {0})
  unfolding count_cross_issued str_eq numbered
  check_link i below child issuer = do
    reject (not (child.raw_issuer == issuer.raw_subject))
        (errorf (numbered i " issuer does not match " ++ numbered (suc i) " subject"))
    within (λ e. wrapf (numbered i " is not validly signed by " ++ numbered (suc i) ": ") e [])
        (k.check_signature_from child issuer)
    reject
        (not (ltb_ℤ issuer.max_path_len (pos 0))
          && ltb_ℤ issuer.max_path_len (pos (count_cross_issued below)))
        (errorf (numbered (suc i) " CA path length constraint exceeded"))

  unfoldable pub check_links :
      ℕ → List Certificate → Certificate → List Certificate → Result (Unit {0})
  unfolding check_link
  check_links i below child [] = ok tt
  check_links i below child (issuer ∷ rest) = do
    check_link i below child issuer
    check_links (suc i) (below ++ (issuer ∷ [])) issuer rest

  unfoldable pub validate_presented_chain : List Certificate → Result (Unit {0})
  unfolding check_links
  validate_presented_chain [] = ok tt
  validate_presented_chain (leaf ∷ rest) = check_links 0 [] leaf rest

  -- The loop of `parseCertificateChain`, `n` certificates read. Each block shortens the rest, which bounds the rounds.
  unfoldable pub parse_chain_loop : ℕ → ℕ → Bytes → Result (List Certificate)
  unfolding is_blank begins_block str_eq numbered
  parse_chain_loop zero n rest = err (new "parseCertificateChain did not end")
  parse_chain_loop (suc fuel) n rest = elim (is_blank rest) [
    | true ↦ ok []
    | false ↦ elim (begins_block rest) [
      | false ↦ err (new "unexpected non-PEM data in certificate bundle")
      | true ↦ elim (k.pem_decode rest) [
        | none ↦ err (new "malformed PEM data in certificate bundle")
        | some (block, remaining) ↦ elim (block.block_type == codes "CERTIFICATE") [
          | false ↦ err (
              errorf (
                codes "unexpected PEM block \""
                ++ (block.block_type ++ codes "\" in certificate bundle")))
          | true ↦ do
            cert ← within (λ e. wrapf (numbered n ": ") e []) (k.parse_certificate block.bytes)
            certs ← parse_chain_loop fuel (suc n) remaining
            ok (cert ∷ certs)
        ]
      ]
    ]
  ]

  unfoldable pub parse_certificate_chain : Bytes → Result (List Certificate)
  unfolding parse_chain_loop
  parse_certificate_chain pem = parse_chain_loop (suc (length pem)) 0 pem

  -- The loop of `containsEncryptedPrivateKey`.
  unfoldable pub encrypted_loop : ℕ → Bytes → Bool
  unfolding str_eq
  encrypted_loop zero rest = false
  encrypted_loop (suc fuel) rest = elim (k.pem_decode rest) [
    | none ↦ false
    | some (block, remaining) ↦ elim (block.block_type == codes "ENCRYPTED PRIVATE KEY") [
      | true ↦ true
      | false ↦ encrypted_loop fuel remaining
    ]
  ]

  unfoldable pub contains_encrypted_private_key : Bytes → Bool
  unfolding encrypted_loop
  contains_encrypted_private_key pem = encrypted_loop (suc (length pem)) pem

  unfoldable pub parse_key_block : Block → Result (Unit {0})
  unfolding str_eq
  parse_key_block block =
      if block.block_type == codes "RSA PRIVATE KEY"
      then k.parse_pkcs1 block.bytes
      else if block.block_type == codes "EC PRIVATE KEY"
      then k.parse_ec block.bytes
      else k.parse_pkcs8 block.bytes

  -- The loop of `parsePrivateKey`.
  unfoldable pub private_key_loop : ℕ → Bytes → Result (Unit {0})
  unfolding is_private_key_type parse_key_block
  private_key_loop zero rest = err (new "parsePrivateKey did not end")
  private_key_loop (suc fuel) rest = elim (k.pem_decode rest) [
    | none ↦ err (new "no private key PEM block found")
    | some (block, remaining) ↦ elim (is_private_key_type block.block_type) [
      | true ↦ parse_key_block block
      | false ↦ private_key_loop fuel remaining
    ]
  ]

  unfoldable pub parse_private_key : Bytes → Result (Unit {0})
  unfolding private_key_loop
  parse_private_key pem = private_key_loop (suc (length pem)) pem

  unfoldable pub fingerprint_der : Bytes → Str
  unfolding hex
  fingerprint_der der = hex (k.sha256 der)

  unfoldable pub bundle_digest : List Certificate → Bytes → Result Str
  unfolding digest_input hex
  bundle_digest chain public_key = do
    public_der ← k.marshal_public_key public_key
    ok (hex (k.sha256 (digest_input chain public_der)))

  -- The last part of `ValidatePEMPair`: the digest, and the description that is returned.
  unfoldable pub describe : Certificate → List Certificate → Option Bytes → Result CertInfo
  unfolding fingerprint_der bundle_digest
  describe leaf chain none = err (new "private key does not expose a public key")
  describe leaf chain (some public_key) = do
    digest ← within (wrap "failed to calculate bundle digest") (bundle_digest chain public_key)
    ok (record {
      certificate = leaf;
      chain = chain;
      fingerprint = fingerprint_der leaf.raw;
      leaf_fingerprint = fingerprint_der leaf.raw;
      bundle_digest = digest;
    })

  -- `ValidatePEMPair` from the parsed chain on.
  unfoldable pub validate_chain : List Certificate → Bytes → Option Bytes → Result CertInfo
  unfolding check_validity allows_server_use validate_presented_chain parse_private_key describe
  validate_chain [] key_pem pair = err (new "no certificates found in PEM")
  validate_chain (leaf ∷ rest) key_pem pair = do
    check_validity k.now 0 (leaf ∷ rest)
    reject leaf.is_ca (new "leaf certificate must not be a CA")
    reject (not (allows_server_use leaf))
        (new "leaf certificate extended key usage does not permit server authentication")
    validate_presented_chain (leaf ∷ rest)
    within (wrap "invalid private key") (parse_private_key key_pem)
    describe leaf (leaf ∷ rest) pair

  -- `ValidatePEMPair`
  unfoldable pub validate_pem_pair : Bytes → Bytes → Result CertInfo
  unfolding validate_chain contains_encrypted_private_key parse_certificate_chain str_eq
  validate_pem_pair cert_pem key_pem = do
    reject (cert_pem == []) (new "certificate PEM is empty")
    reject (key_pem == []) (new "private key PEM is empty")
    reject (contains_encrypted_private_key key_pem)
        (new "encrypted private keys are not supported (ENCRYPTED PRIVATE KEY)")
    pair ←
        within (wrap "certificate and private key do not match") (k.x509_key_pair cert_pem key_pem)
    chain ← within (wrap "failed to parse certificate chain") (parse_certificate_chain cert_pem)
    validate_chain chain key_pem pair

  -- `Fingerprint`
  unfoldable pub fingerprint_of_pem : Bytes → Result Str
  unfolding parse_certificate_chain fingerprint_der
  fingerprint_of_pem pem =
      within (wrap "failed to parse certificate chain") (parse_certificate_chain pem) >>= λ chain.
      elim chain [
        | [] ↦ err (new "no certificate PEM block found")
        | leaf ∷ rest ↦ ok (fingerprint_der leaf.raw)
      ]

-- `IsSameFingerprint`
unfoldable pub is_same_fingerprint : Str → Str → Bool
unfolding str_eq
is_same_fingerprint a b = not (a == []) && a == b

-- `(*CertInfo).CommonName`; `none` stands for a nil receiver or certificate.
unfoldable pub common_name : Option CertInfo → Str
common_name none = []
common_name (some info) = elim info.certificate.dns_names [
  | [] ↦ info.certificate.common_name
  | name ∷ names ↦ name
]
