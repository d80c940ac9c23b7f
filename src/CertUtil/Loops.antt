-- ===== src/CertUtil/Loops.antt =====
-- The loops over the PEM blocks of internal/certutil/certutil.go end: the rounds that their
-- fuel gives are enough, so each satisfies the equation of the loop without fuel.
use zoraxy_cert_warden.Base.{
  ◌||◌, ℕ, zero, suc, ◌<◌, ◌≡◌, refl, ◌⊎◌, inl, inr, Bool, true, false, Option, none, some, List,
  [], ◌∷◌, arith, length, codes, ◌==◌, str_eq,
}
use zoraxy_cert_warden.Failure.{wrapf, Result, ok, ◌>>=◌, within}
use zoraxy_cert_warden.CertUtil.{
  numbered, Bytes, Block, Certificate, Crypto, is_blank, begins_block, parse_chain_loop,
  encrypted_loop, contains_encrypted_private_key,
}

pub Option-cases {ℓ} : {A : Type ℓ} (o : Option A) → (o ≡ none) ⊎ ((a : A) × (o ≡ some a))
Option-cases none = inl refl
Option-cases (some a) = inr (a, refl)

-- `pem.Decode` returns a rest that is shorter than what it read.
abbrev pub DecodeShrinks : Crypto → Type 0
DecodeShrinks k =
    (s : Bytes) (block : Block) (rest : Bytes)
    → k.pem_decode s ≡ some (block, rest)
    → length rest < length s

-- The PEM blocks of a text, as repeated decoding finds them.
pub data Blocks (k : Crypto) : Bytes → List Block → Type 0 where
  done : {s : Bytes} → k.pem_decode s ≡ none → Blocks k s []
  more :
      {s rest : Bytes} {block : Block} {blocks : List Block}
      → k.pem_decode s ≡ some (block, rest)
      → Blocks k rest blocks
      → Blocks k s (block ∷ blocks)

abbrev pub has_encrypted : List Block → Bool
has_encrypted [] = false
has_encrypted (b ∷ bs) = b.block_type == codes "ENCRYPTED PRIVATE KEY" || has_encrypted bs

-- The bundles that the parser accepts: certificate blocks with white space around them.
pub data IsBundle (k : Crypto) : Bytes → List Certificate → Type 0 where
  end : {s : Bytes} → is_blank s ≡ true → IsBundle k s []
  next :
      {s rest : Bytes} {block : Block} {cert : Certificate} {certs : List Certificate}
      → is_blank s ≡ false
      → begins_block s ≡ true
      → k.pem_decode s ≡ some (block, rest)
      → block.block_type ≡ codes "CERTIFICATE"
      → k.parse_certificate block.bytes ≡ ok cert
      → IsBundle k rest certs
      → IsBundle k s (cert ∷ certs)

module _ (k : Crypto) (shrinks : DecodeShrinks k) where
  encrypted_loop-Blocks :
      (f : ℕ) (s : Bytes)
      → length s < f
      → (bs : List Block) × Blocks k s bs × (encrypted_loop k f s ≡ has_encrypted bs)
  unfolding encrypted_loop
  encrypted_loop-Blocks zero s hf = elim hf [ ]
  encrypted_loop-Blocks (suc f) s hf = elim (Option-cases (k.pem_decode s)) [
    | inl e ↦ ([], done e, rw (e, encrypted_loop) refl)
    | inr ((block, rest), e) ↦
        let less = shrinks s block rest e in
        let (bs, found, ih) = encrypted_loop-Blocks f rest (omega arith) in
        (block ∷ bs, more e found, ground arith)
  ]

  -- Every text has a list of PEM blocks, found by decoding it until no block is left, and
  -- `containsEncryptedPrivateKey` holds exactly when one of them has the encrypted type, if each
  -- decoding leaves a shorter text.
  pub contains_encrypted-eq-has_encrypted :
      (s : Bytes)
      → (bs : List Block) × Blocks k s bs × (contains_encrypted_private_key k s ≡ has_encrypted bs)
  unfolding contains_encrypted_private_key
  contains_encrypted-eq-has_encrypted s = encrypted_loop-Blocks (suc (length s)) s (omega arith)

module _ (k : Crypto) where
  abbrev certificate_then : ℕ → ℕ → Block → Bytes → Result (List Certificate)
  certificate_then f n block rest = do
    cert ← within (λ e. wrapf (numbered n ": ") e []) (k.parse_certificate block.bytes)
    certs ← parse_chain_loop k f (suc n) rest
    ok (cert ∷ certs)
