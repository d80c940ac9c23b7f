-- ===== src/CertWarden/Material.antt =====
-- internal/certwarden/client.go: which responses `splitMaterial` accepts, and what it makes of them.
use zoraxy_cert_warden.Base.{
  length-append, ◌-◌, ◌≤◌, ◌<◌, true, false, not, Option, none, some, List, [], ◌∷◌, ◌++◌, codes,
  str_eq, nat_eq, length, ◌≡◌, ◌≢◌, refl, sym, ◌∙◌, arith, ◌↔◌, ◌⊎◌, inl, inr, subst, if-cases, All,
  Bool-cases, ap,
}
use zoraxy_cert_warden.Failure.{ok}
use zoraxy_cert_warden.CertUtil.{Bytes, Block, Crypto, is_blank}
use zoraxy_cert_warden.CertUtil.Loops.{DecodeShrinks}
use zoraxy_cert_warden.CertWarden.{
  next_block, split_material, find_mark, encoded_block, block_from, take_bytes, push,
}
use zoraxy_cert_warden.CertWarden.Bundle.{Item, Looped, end, next, Bundle, push-some}
use zoraxy_cert_warden.CertWarden.Rounds.{split_material-Looped}
use zoraxy_cert_warden.Text.{has_prefix}

-- `pem.Decode` returns the remainder of what it was given: a block has a text, and the rest follows
-- it.
abbrev pub DecodeRest : Crypto → Type 0
DecodeRest k =
    (s : Bytes) (block : Block) (rest : Bytes)
    → k.pem_decode s ≡ some (block, rest)
    → (text : Bytes) × (text ≢ []) × (s ≡ text ++ rest)

-- ASCII white space.
abbrev pub White : Bytes → Type 0
White s = All (λ b. ((9 ≤ b) × (b ≤ 13)) ⊎ (b ≡ 32)) s

-- The response is a sequence of PEM blocks with nothing but white space before, between and after
-- them. Each block begins with the mark of PEM, and is what a decoding at its text finds.
pub data Sequence (k : Crypto) : Bytes → List Item → Type 0 where
  blank : {s : Bytes} → White s → Sequence k s []
  block_follows :
      {s text rest : Bytes} {block : Block} {items : List Item} (space : Bytes)
      → White space
      → s ≡ space ++ (text ++ rest)
      → has_prefix (text ++ rest) (codes "-----BEGIN ") ≡ true
      → k.pem_decode (text ++ rest) ≡ some (block, rest)
      → Sequence k rest items
      → Sequence k s ((block, text) ∷ items)

is_blank-White : (s : Bytes) → is_blank s ≡ true → White s
unfolding is_blank nat_eq
is_blank-White [] e = tt
is_blank-White (b ∷ s) e = (ground arith, is_blank-White s (ground arith))

White-is_blank : (s : Bytes) → White s → is_blank s ≡ true
unfolding is_blank nat_eq
White-is_blank [] w = refl
White-is_blank (b ∷ s) (w, ws) = ground (arith, White-is_blank s ws)

-- A text that begins with the mark is not blank.
marked-begins :
    (s : Bytes) → has_prefix s (codes "-----BEGIN ") ≡ true → (later : Bytes) × (s ≡ 45 ∷ later)
unfolding has_prefix nat_eq
marked-begins [] e = cc
marked-begins (c ∷ s) e = (s, ground arith)

not_blank :
    (space s : Bytes) → has_prefix s (codes "-----BEGIN ") ≡ true → is_blank (space ++ s) ≡ false
unfolding is_blank nat_eq
not_blank [] s e = let (later, same) = marked-begins s e in ground (arith, same)
not_blank (c ∷ space) s e = ground (arith, not_blank space s e)

-- The mark that `find_mark` finds behind white space.
find_mark-White :
    (space s : Bytes)
    → White space
    → has_prefix s (codes "-----BEGIN ") ≡ true
    → find_mark (codes "-----BEGIN ") (space ++ s) ≡ some (space, s)
unfolding find_mark has_prefix push nat_eq
find_mark-White [] [] w e = cc
find_mark-White [] (c ∷ s) w e = ground (arith, e)
find_mark-White (b ∷ space) s (w, ws) e = ground (arith, find_mark-White space s ws e)

find_mark-parts :
    (k : Crypto) (mark s before from : Bytes)
    → find_mark mark s ≡ some (before, from)
    → (s ≡ before ++ from) × (has_prefix from mark ≡ true)
unfolding find_mark
find_mark-parts k mark [] before from e = cc
find_mark-parts k mark (c ∷ s) before from e = elim (Bool-cases (has_prefix (c ∷ s) mark)) [
  | inl h ↦ (ground arith, ground arith)
  | inr h ↦
      let (later, l, same) = push-some k c (find_mark mark s) before from (ground arith) in
      let (whole, m) = find_mark-parts k mark s later from l in
      (ap (λ t. c ∷ t) whole ∙ ap (λ t. t ++ from) (sym same), m)
]

take_bytes-append : (text rest : Bytes) → take_bytes (length text) (text ++ rest) ≡ text
unfolding take_bytes
take_bytes-append [] rest = ground arith
take_bytes-append (c ∷ text) rest = ground (arith, take_bytes-append text rest)

length-before : (text rest : Bytes) → length (text ++ rest) - length rest ≡ length text
length-before text rest = omega (arith, length-append text rest)

text_taken :
    (text rest : Bytes) → take_bytes (length (text ++ rest) - length rest) (text ++ rest) ≡ text
text_taken text rest =
    ap (λ n. take_bytes n (text ++ rest)) (length-before text rest) ∙ take_bytes-append text rest

module _ (k : Crypto) (keeps : DecodeRest k) where
  shrinks : DecodeShrinks k
  shrinks s block rest e =
      let (text, full, whole) = keeps s block rest e in shorter s text rest full whole
    where
      shorter : (s text rest : Bytes) → text ≢ [] → s ≡ text ++ rest → length rest < length s
      shorter s [] rest full whole = absurd (full refl)
      shorter s (c ∷ text) rest full whole =
          omega (arith, ap length whole, length-append (c ∷ text) rest)

  -- What the decoding of a marked text gives.
  encoded_block-text :
      (from : Bytes) (o : Option (Block × Bytes)) (block : Block) (encoded remaining : Bytes)
      → k.pem_decode from ≡ o
      → encoded_block k from o ≡ ok (block, (encoded, remaining))
      → (from ≡ encoded ++ remaining) × (k.pem_decode from ≡ some (block, remaining))
  unfolding encoded_block
  encoded_block-text from none block encoded remaining d e = cc
  encoded_block-text from (some (b, r)) block encoded remaining d e =
      let (text, full, whole) = keeps from b r d in
      let taken =
        subst (λ f. take_bytes (length f - length r) f ≡ text) (sym whole) (text_taken text r) in
      (ground (arith, whole, taken, e), ground (arith, d, e))

  -- What one round has taken.
  abbrev Taken : Bytes → Block → Bytes → Bytes → Type 0
  Taken s block text rest =
      (space : Bytes) × White space
      × (s ≡ space ++ (text ++ rest))
      × (has_prefix (text ++ rest) (codes "-----BEGIN ") ≡ true)
      × (k.pem_decode (text ++ rest) ≡ some (block, rest))

  block_from-Taken :
      (s : Bytes) (o : Option (Bytes × Bytes)) (block : Block) (text rest : Bytes)
      → find_mark (codes "-----BEGIN ") s ≡ o
      → block_from k o ≡ ok (block, (text, rest))
      → Taken s block text rest
  unfolding block_from
  block_from-Taken s none block text rest m e = cc
  block_from-Taken s (some (before, from)) block text rest m e =
      let (whole, h) = find_mark-parts k (codes "-----BEGIN ") s before from m in
      elim (if-cases (not (is_blank before)) e) [
        | inl (b, f) ↦ cc
        | inr (b, f) ↦
            let (parts, d) = encoded_block-text from (k.pem_decode from) block text rest refl f in
            (
              before,
              is_blank-White before (ground arith),
              whole ∙ ap (λ t. before ++ t) parts,
              subst (λ t. has_prefix t (codes "-----BEGIN ") ≡ true) parts h,
              subst (λ t. k.pem_decode t ≡ some (block, rest)) parts d,
            )
      ]

  next_block-Taken :
      (s : Bytes) (block : Block) (text rest : Bytes)
      → next_block k s ≡ ok (block, (text, rest))
      → Taken s block text rest
  unfolding next_block
  next_block-Taken s block text rest e =
      block_from-Taken s (find_mark (codes "-----BEGIN ") s) block text rest refl e

  block_found :
      (space text rest : Bytes) (block : Block)
      → White space
      → has_prefix (text ++ rest) (codes "-----BEGIN ") ≡ true
      → k.pem_decode (text ++ rest) ≡ some (block, rest)
      → next_block k (space ++ (text ++ rest)) ≡ ok (block, (text, rest))
  unfolding next_block block_from encoded_block
  block_found space text rest block w h d =
      rw (find_mark-White space (text ++ rest) w h, White-is_blank space w, d, text_taken text rest)
        refl

  Looped-Sequence : (s : Bytes) (items : List Item) → Looped k s items → Sequence k s items
  Looped-Sequence s [] (end b) = blank (is_blank-White s b)
  Looped-Sequence s (_ ∷ items) (next {remaining = rest} {encoded = text} {block = block} b n q) =
      let (space, w, whole, h, d) = next_block-Taken s block text rest n in
      block_follows space w whole h d (Looped-Sequence rest items q)

  Sequence-Looped : (s : Bytes) (items : List Item) → Sequence k s items → Looped k s items
  Sequence-Looped s [] (blank w) = end (White-is_blank s w)
  Sequence-Looped s (_ ∷ items)
        (block_follows {text = text} {rest = rest} {block = block} space w whole h d q) =
      next (subst (λ t. is_blank t ≡ false) (sym whole) (not_blank space (text ++ rest) h))
        (subst (λ t. next_block k t ≡ ok (block, (text, rest))) (sym whole)
          (block_found space text rest block w h d))
        (Sequence-Looped rest items q)

  -- `splitMaterial` accepts a response exactly if it is a sequence of PEM blocks with nothing but
  -- ASCII white space before, between and after them, which are certificates that can be parsed
  -- and one private key that can be parsed in the format of its type, in any order, at least one
  -- certificate among them; it gives the texts of the certificates in their order and that of the
  -- key. Each decoding of a block must return the remainder of what it was given, behind a text.
  pub split_material_iff :
      (body certs key : Bytes)
      → (split_material k body ≡ ok (certs, key)) ↔ (
          (items : List Item) × Sequence k body items
          × Bundle k items certs key
          × (certs ≢ [])
          × (key ≢ []))
  split_material_iff body certs key =
      let l = split_material-Looped k shrinks body certs key in
      (
        λ e. let (items, q, u, c, p) = l.0 e in (items, Looped-Sequence body items q, u, c, p),
        λ (items, q, u, c, p). l.1 (items, Sequence-Looped body items q, u, c, p),
      )
