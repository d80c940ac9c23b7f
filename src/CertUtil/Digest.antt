-- ===== src/CertUtil/Digest.antt =====
-- What the bundle digest hashes tells certificate bundles apart.
use zoraxy_cert_warden.Base.{
  ℕ, ◌/◌, ◌%◌, ◌^◌, ◌<◌, ◌≡◌, refl, append_assoc, sym, ◌∙◌, List, [], ◌∷◌, ◌++◌, arith, length, All,
}
use zoraxy_cert_warden.CertUtil.{
  Bytes, Certificate, put_uint64, digest_part, digest_parts, raws, digest_input,
}

-- Two lists that are equal with a rest behind them, and equally long, are equal, rests included.
append_cancel {ℓ} :
    {A : Type ℓ} (xs ys : List A) {us vs : List A}
    → length xs ≡ length ys
    → xs ++ us ≡ ys ++ vs
    → (xs ≡ ys) × (us ≡ vs)
append_cancel [] [] n e = (refl, e)
append_cancel [] (y ∷ ys) n e = absurd (omega arith)
append_cancel (x ∷ xs) [] n e = absurd (omega arith)
append_cancel (x ∷ xs) (y ∷ ys) n e = let (p, q) = append_cancel xs ys (omega arith) (cc) in (cc, q)

bytes_determine :
    (m n : ℕ)
    → m < 2 ^ 64
    → n < 2 ^ 64
    → m / 2 ^ 56 % 256 ≡ n / 2 ^ 56 % 256
    → m / 2 ^ 48 % 256 ≡ n / 2 ^ 48 % 256
    → m / 2 ^ 40 % 256 ≡ n / 2 ^ 40 % 256
    → m / 2 ^ 32 % 256 ≡ n / 2 ^ 32 % 256
    → m / 2 ^ 24 % 256 ≡ n / 2 ^ 24 % 256
    → m / 2 ^ 16 % 256 ≡ n / 2 ^ 16 % 256
    → m / 2 ^ 8 % 256 ≡ n / 2 ^ 8 % 256
    → m % 256 ≡ n % 256
    → m ≡ n
bytes_determine m n hm hn a b c d e f g h = omega arith

put_uint64_injective : (m n : ℕ) → m < 2 ^ 64 → n < 2 ^ 64 → put_uint64 m ≡ put_uint64 n → m ≡ n
unfolding put_uint64
put_uint64_injective m n hm hn e = bytes_determine m n hm hn (cc) (cc) (cc) (cc) (cc) (cc) (cc) (cc)

length-put_uint64 : (m n : ℕ) → length (put_uint64 m) ≡ length (put_uint64 n)
unfolding put_uint64
length-put_uint64 m n = refl

digest_part_cancel :
    (p q : Bytes) {us vs : Bytes}
    → length p < 2 ^ 64
    → length q < 2 ^ 64
    → digest_part p ++ us ≡ digest_part q ++ vs
    → (p ≡ q) × (us ≡ vs)
unfolding digest_part
digest_part_cancel p q {us} {vs} hp hq e =
    let (sizes, rest) =
      append_cancel (put_uint64 (length p)) (put_uint64 (length q))
        (length-put_uint64 (length p) (length q))
        (sym (append_assoc (put_uint64 (length p)) p us)
          ∙ e
          ∙ append_assoc (put_uint64 (length q)) q vs) in
    append_cancel p q (put_uint64_injective _ _ hp hq sizes) rest

-- The length of each part fits a uint64.
abbrev pub Fits : Bytes → Type 0
Fits p = length p < 2 ^ 64

digest_parts_injective :
    (ps qs : List Bytes) → All Fits ps → All Fits qs → digest_parts ps ≡ digest_parts qs → ps ≡ qs
unfolding digest_parts digest_part put_uint64
digest_parts_injective [] [] hp hq e = refl
digest_parts_injective [] (q ∷ qs) hp hq e = cc
digest_parts_injective (p ∷ ps) [] hp hq e = cc
digest_parts_injective (p ∷ ps) (q ∷ qs) hp hq e =
    let (head, rest) = digest_part_cancel p q hp.0 hq.0 e in
    let tails = digest_parts_injective ps qs hp.1 hq.1 rest in cc

snoc_injective {ℓ} :
    {A : Type ℓ} (xs ys : List A) {a b : A} → xs ++ a ∷ [] ≡ ys ++ b ∷ [] → (xs ≡ ys) × (a ≡ b)
snoc_injective [] [] e = (refl, cc)
snoc_injective [] (y ∷ []) e = cc
snoc_injective [] (y ∷ z ∷ ys) e = cc
snoc_injective (x ∷ []) [] e = cc
snoc_injective (x ∷ z ∷ xs) [] e = cc
snoc_injective (x ∷ xs) (y ∷ ys) e = let (p, q) = snoc_injective xs ys (cc) in (cc, q)

All-snoc {ℓ} :
    {A : Type ℓ} (P : A → Type 0) (xs : List A) (a : A) → All P xs → P a → All P (xs ++ a ∷ [])
All-snoc P [] a h p = (p, tt)
All-snoc P (x ∷ xs) a h p = (h.0, All-snoc P xs a h.1 p)

-- Two bundles for which the digest hashes the same bytes have the same certificates in the same
-- order, by their encodings, and the same public key, if every encoding is shorter than 2^64 bytes.
pub digest_input_injective :
    (chain chain' : List Certificate) (key key' : Bytes)
    → All Fits (raws chain)
    → All Fits (raws chain')
    → Fits key
    → Fits key'
    → digest_input chain key ≡ digest_input chain' key'
    → (raws chain ≡ raws chain') × (key ≡ key')
unfolding digest_input
digest_input_injective chain chain' key key' hc hc' hk hk' e =
    snoc_injective (raws chain) (raws chain')
      (digest_parts_injective _ _ (All-snoc Fits _ _ hc hk) (All-snoc Fits _ _ hc' hk') (cc))
