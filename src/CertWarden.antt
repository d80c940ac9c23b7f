-- ===== src/CertWarden.antt =====
-- internal/certwarden/client.go: the download of a certificate and its key from Cert Warden. The
-- HTTP exchange is a parameter, and so are the PEM and X.509 libraries.
pub mod Bundle
pub mod Rounds
pub mod Material
pub mod Fetch
use zoraxy_cert_warden.Base.{
  ℕ, zero, suc, ◌+◌, ◌-◌, Bool, true, false, not, ◌&&◌, ◌||◌, Option, none, some, List, [], ◌∷◌,
  ◌++◌, Str, codes, ◌==◌, str_eq, nat_eq, if◌then◌else◌, ltb, leb, length,
}
use zoraxy_cert_warden.Text.{trim_space, has_prefix}
use zoraxy_cert_warden.Failure.{new, Result, ok, err, ◌>>=◌, ◌>>◌, reject}
use zoraxy_cert_warden.Host.{Host}
use zoraxy_cert_warden.Config.Validate.{is_https_origin}
use zoraxy_cert_warden.CertUtil.{Bytes, Block, Certificate, Crypto, is_blank}

abbrev pub maximum_body_bytes : ℕ
maximum_body_bytes = 1048576

pub data ErrorKind : Type 0 where
  kind_network kind_tls kind_authentication kind_not_found : ErrorKind
  kind_server kind_timeout kind_response_too_large kind_invalid_response : ErrorKind

-- `FetchError`; the status 0 stands for none.
pub record FetchError : Type 0 where
  pub kind : ErrorKind
  pub http_status : ℕ

-- `Client`, by what it sends.
pub record Client : Type 0 where
  pub base_url : Str
  pub api_key : Str

-- `validateOrigin`
unfoldable pub validate_origin : Host → Str → Result Str
unfolding is_https_origin
validate_origin h raw = elim (h.parse_url raw) [
  | none ↦ err (new "certwarden base URL must be an HTTPS origin")
  | some u ↦
      if is_https_origin raw u
      then ok (codes "https://" ++ u.host)
      else err (new "certwarden base URL must be an HTTPS origin")
]

-- `NewClient`
unfoldable pub new_client : Host → Str → Str → Str → Result Client
unfolding str_eq validate_origin trim_space
new_client h base_url certificate_key private_key = do
  origin ← validate_origin h base_url
  reject (trim_space certificate_key == [] || trim_space private_key == [])
      (new "certwarden credentials are required")
  ok record {
    base_url = origin;
    api_key = trim_space certificate_key ++ (codes "." ++ trim_space private_key);
  }

-- `statusErrorKind`
unfoldable pub status_error_kind : ℕ → ErrorKind
unfolding nat_eq
status_error_kind status =
    if status == 401 || status == 403
    then kind_authentication
    else if status == 404
    then kind_not_found
    else if leb 500 status
    then kind_server
    else kind_invalid_response

-- What `errors.Is` and `errors.As` find in the error of an exchange: a deadline, a time-out of
-- `net.Error`, or one of the certificate and TLS errors.
pub record TransportError : Type 0 where
  pub deadline_exceeded : Bool
  pub net_timeout : Bool
  pub certificate_or_tls : Bool

-- `transportErrorKind`; the first argument says whether the context's deadline has passed.
unfoldable pub transport_error_kind : Bool → TransportError → ErrorKind
transport_error_kind context_expired e =
    if context_expired || e.deadline_exceeded
    then kind_timeout
    else if e.net_timeout
    then kind_timeout
    else if e.certificate_or_tls
    then kind_tls
    else kind_network

unfoldable pub push : ℕ → Option (Bytes × Bytes) → Option (Bytes × Bytes)
push c none = none
push c (some (before, from)) = some (c ∷ before, from)

-- `bytes.Index` of the mark, as what stands before it and the rest from it on.
unfoldable pub find_mark : Bytes → Bytes → Option (Bytes × Bytes)
unfolding has_prefix push
find_mark mark [] = none
find_mark mark (c ∷ s) =
    let later = find_mark mark s in
    if has_prefix (c ∷ s) mark then some ([], c ∷ s) else push c later

unfoldable pub take_bytes : ℕ → Bytes → Bytes
take_bytes zero s = []
take_bytes (suc n) [] = []
take_bytes (suc n) (c ∷ s) = c ∷ take_bytes n s

-- The cases of the switch on the type of a block.
unfoldable pub is_certificate_type : Str → Bool
unfolding str_eq
is_certificate_type t = t == codes "CERTIFICATE"

unfoldable pub is_key_type : Str → Bool
unfolding str_eq
is_key_type t =
    t == codes "RSA PRIVATE KEY" || (t == codes "EC PRIVATE KEY" || t == codes "PRIVATE KEY")

module _ (k : Crypto) where
  -- `parsePrivateKey`
  unfoldable pub parse_key_block : Block → Result (Unit {0})
  unfolding str_eq
  parse_key_block block =
      if block.block_type == codes "RSA PRIVATE KEY"
      then k.parse_pkcs1 block.bytes
      else if block.block_type == codes "EC PRIVATE KEY"
      then k.parse_ec block.bytes
      else k.parse_pkcs8 block.bytes

  -- `pem.Decode` with the text that it read.
  unfoldable pub encoded_block : Bytes → Option (Block × Bytes) → Result (Block × (Bytes × Bytes))
  unfolding take_bytes
  encoded_block from none = err (new "malformed PEM response")
  encoded_block from (some (block, remaining)) =
      ok (block, (take_bytes (length from - length remaining) from, remaining))

  unfoldable pub block_from : Option (Bytes × Bytes) → Result (Block × (Bytes × Bytes))
  unfolding is_blank encoded_block
  block_from none = err (new "unexpected response material")
  block_from (some (before, from)) =
      if not (is_blank before)
      then err (new "unexpected response material")
      else encoded_block from (k.pem_decode from)

  -- The next block of the response with its text, and what follows it.
  unfoldable pub next_block : Bytes → Result (Block × (Bytes × Bytes))
  unfolding find_mark block_from
  next_block rest = block_from (find_mark (codes "-----BEGIN ") rest)

  unfoldable pub keep_certificate :
      Result Certificate → Bytes → Bytes → Bytes → Result (Bytes × Bytes)
  keep_certificate (err e) certificates private_key encoded =
      err (new "invalid certificate material")
  keep_certificate (ok c) certificates private_key encoded =
      ok (certificates ++ encoded, private_key)

  unfoldable pub keep_key : Result (Unit {0}) → Bytes → Bytes → Bytes → Result (Bytes × Bytes)
  keep_key (ok _) certificates [] encoded = ok (certificates, encoded)
  keep_key _ certificates private_key encoded = err (new "invalid private key material")

  -- One round of the loop, on what was found so far.
  unfoldable pub add_block : Bytes → Bytes → Block → Bytes → Result (Bytes × Bytes)
  unfolding is_certificate_type is_key_type keep_certificate keep_key parse_key_block
  add_block certificates private_key block encoded =
      if is_certificate_type block.block_type
      then keep_certificate (k.parse_certificate block.bytes) certificates private_key encoded
      else if is_key_type block.block_type
      then keep_key (parse_key_block block) certificates private_key encoded
      else err (new "unknown response material")

  abbrev pub Rounds : Type 0
  Rounds = Bytes → Bytes → Bytes → Result (Bytes × Bytes)

  unfoldable pub go_on : Rounds → Bytes → Bytes × Bytes → Result (Bytes × Bytes)
  go_on rounds remaining (certificates, private_key) = rounds certificates private_key remaining

  -- A round on a block, and the rounds after it.
  unfoldable pub take_block :
      Rounds → Bytes → Bytes → Block × (Bytes × Bytes) → Result (Bytes × Bytes)
  unfolding add_block go_on
  take_block rounds certificates private_key (block, (encoded, remaining)) =
      add_block certificates private_key block encoded >>= go_on rounds remaining

  -- The loop of `splitMaterial`, on fuel.
  unfoldable pub split_loop : ℕ → Bytes → Bytes → Bytes → Result (Bytes × Bytes)
  unfolding is_blank next_block take_block
  split_loop zero certificates private_key rest = err (new "out of fuel")
  split_loop (suc f) certificates private_key rest =
      if is_blank rest
      then ok (certificates, private_key)
      else next_block rest >>= take_block (split_loop f) certificates private_key

  -- The end of `splitMaterial`.
  unfoldable pub require_both : Bytes × Bytes → Result (Bytes × Bytes)
  require_both ([], private_key) = err (new "incomplete response material")
  require_both (certificates, []) = err (new "incomplete response material")
  require_both (c ∷ certificates, b ∷ private_key) = ok (c ∷ certificates, b ∷ private_key)

  -- `splitMaterial`
  unfoldable pub split_material : Bytes → Result (Bytes × Bytes)
  unfolding split_loop require_both
  split_material body = split_loop (suc (length body)) [] [] body >>= require_both
