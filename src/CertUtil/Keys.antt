-- ===== src/CertUtil/Keys.antt =====
-- The search for a private key in internal/certutil/certutil.go ends.
use zoraxy_cert_warden.Base.{
  ℕ, zero, suc, ◌<◌, ◌≡◌, refl, inl, inr, List, [], ◌∷◌, length, arith, if◌then◌else◌,
}
use zoraxy_cert_warden.Failure.{new, Result, err}
use zoraxy_cert_warden.CertUtil.{
  Bytes, Block, Crypto, is_private_key_type, parse_key_block, private_key_loop, parse_private_key,
}
use zoraxy_cert_warden.CertUtil.Loops.{Option-cases, DecodeShrinks, Blocks, done, more}

-- What the first block with the type of a private key gives.
abbrev pub first_key : Crypto → List Block → Result (Unit {0})
first_key k [] = err (new "no private key PEM block found")
first_key k (b ∷ bs) =
    if is_private_key_type b.block_type then parse_key_block k b else first_key k bs

module _ (k : Crypto) (shrinks : DecodeShrinks k) where
  private_key_loop-first_key :
      (f : ℕ) (s : Bytes)
      → length s < f
      → (bs : List Block) × Blocks k s bs × (private_key_loop k f s ≡ first_key k bs)
  unfolding private_key_loop
  private_key_loop-first_key zero s hf = elim hf [ ]
  private_key_loop-first_key (suc f) s hf = elim (Option-cases (k.pem_decode s)) [
    | inl e ↦ ([], done e, rw (e, private_key_loop) refl)
    | inr ((block, rest), e) ↦
        let less = shrinks s block rest e in
        let (bs, found, ih) = private_key_loop-first_key f rest (omega arith) in
        (block ∷ bs, more e found, ground arith)
  ]

  -- If each decoding leaves a shorter text, then every text has a list of PEM blocks, found by
  -- decoding it until no block is left, and `parsePrivateKey` gives what the first block with the
  -- type of a private key gives, or the error that there is none.
  pub parse_private_key-eq-first_key :
      (s : Bytes) → (bs : List Block) × Blocks k s bs × (parse_private_key k s ≡ first_key k bs)
  unfolding parse_private_key
  parse_private_key-eq-first_key s = private_key_loop-first_key (suc (length s)) s (omega arith)
