-- ===== src/CertWarden/Rounds.antt =====
-- internal/certwarden/client.go: what the rounds of `splitMaterial` come to. The rounds that its
-- fuel gives are enough.
use zoraxy_cert_warden.Base.{
  ℕ, zero, suc, ◌-◌, ◌<◌, false, Option, none, some, List, [], ◌∷◌, ◌++◌, codes, str_eq, nat_eq,
  length, ◌≡◌, ◌≢◌, refl, sym, ◌∙◌, arith, ◌↔◌, inl, inr, subst, append_assoc, append-nil, if-cases,
  ap,
}
use zoraxy_cert_warden.Failure.{Result, ok, >>=-eq-ok}
use zoraxy_cert_warden.CertUtil.{Bytes, Block, Crypto, is_blank}
use zoraxy_cert_warden.CertUtil.Loops.{DecodeShrinks}
use zoraxy_cert_warden.CertWarden.{
  require_both, take_block, go_on, next_block, add_block, split_loop, split_material, find_mark,
  encoded_block, block_from,
}
use zoraxy_cert_warden.CertWarden.Bundle.{
  Item, Looped, end, next, IsCertificate, IsPrivateKey, Bundle, nothing, certificate, private_key,
  Added, add_block-Added, Added-add_block, Joined, find_mark-length, take_bytes-nil,
  if_not_rejected,
}

module _ (k : Crypto) where
  module _ (shrinks : DecodeShrinks k) where
    -- A block has a text, and what follows it is shorter.
    Facts : Bytes → Result (Block × (Bytes × Bytes)) → Type 0
    Facts from r =
        (block : Block) (encoded remaining : Bytes)
        → r ≡ ok (block, (encoded, remaining))
        → (encoded ≢ []) × (length remaining < length from)

    encoded_block-Facts :
        (from : Bytes) (o : Option (Block × Bytes))
        → k.pem_decode from ≡ o
        → Facts from (encoded_block k from o)
    unfolding encoded_block Facts
    encoded_block-Facts from none e block encoded remaining f = cc
    encoded_block-Facts from (some (b, r)) e block encoded remaining f =
        let less = shrinks from b r e in
        let n =
          take_bytes-nil k (length from - length r) from (omega (arith, less))
            (omega (arith, less)) in
        (ground (arith, n), ground (arith, less))

    block_from-Facts :
        (s : Bytes) (o : Option (Bytes × Bytes))
        → find_mark (codes "-----BEGIN ") s ≡ o
        → Facts s (block_from k o)
    unfolding block_from Facts
    block_from-Facts s none e block encoded remaining f = cc
    block_from-Facts s (some (before, from)) e block encoded remaining f =
        let l = find_mark-length k (codes "-----BEGIN ") s before from e in
        let (n, less) =
          encoded_block-Facts from (k.pem_decode from) refl block encoded remaining
            (if_not_rejected k (is_blank before) _ _ _ f) in
        (n, omega (arith, l, less))

    next_block-Facts : (s : Bytes) → Facts s (next_block k s)
    unfolding next_block
    next_block-Facts s = block_from-Facts s (find_mark (codes "-----BEGIN ") s) refl

    -- What the loop has found from some point on.
    Found : Bytes → Bytes → Bytes → Bytes × Bytes → Type 0
    Found certs key s x =
        (items : List Item) × (cs later : Bytes) × Looped k s items
        × Bundle k items cs later
        × (x.0 ≡ certs ++ cs)
        × Joined k key later x.1

    add_certificate :
        (certs key s : Bytes) (x : Bytes × Bytes) {block : Block} {encoded remaining : Bytes}
        → is_blank s ≡ false
        → next_block k s ≡ ok (block, (encoded, remaining))
        → IsCertificate k block
        → Found (certs ++ encoded) key remaining x
        → Found certs key s x
    unfolding Found
    add_certificate certs key s x {encoded = encoded} b n c (items, cs, later, q, u, e, j) =
        (_, encoded ++ cs, later, next b n q, certificate c u, e ∙ append_assoc certs encoded cs, j)

    add_key :
        (certs key s : Bytes) (x : Bytes × Bytes) {block : Block} {encoded remaining : Bytes}
        → is_blank s ≡ false
        → next_block k s ≡ ok (block, (encoded, remaining))
        → encoded ≢ []
        → IsPrivateKey k block
        → key ≡ []
        → Found certs encoded remaining x
        → Found certs key s x
    unfolding Found Joined
    add_key certs key s x b n full p empty (items, cs, later, q, u, e, inl (gone, j)) =
        absurd (full gone)
    add_key certs key s x {encoded = encoded} b n full p empty
          (items, cs, later, q, u, e, inr (gone, j)) =
        (
          _,
          cs,
          encoded,
          next b n q,
          private_key p (subst (Bundle k items cs) gone u),
          e,
          inl (empty, j),
        )

    of_Added :
        (certs key s encoded remaining : Bytes) (block : Block) (x : Bytes × Bytes)
        → is_blank s ≡ false
        → next_block k s ≡ ok (block, (encoded, remaining))
        → (y : Bytes × Bytes) → Added k certs key block encoded y
        → Found y.0 y.1 remaining x
        → Found certs key s x
    unfolding Added Facts
    of_Added certs key s encoded remaining block x b n y (inl (c, same)) ih =
        add_certificate certs key s x b n c
          (subst (λ (z : Bytes × Bytes). Found z.0 z.1 remaining x) same ih)
    of_Added certs key s encoded remaining block x b n y (inr (p, empty, same)) ih =
        add_key certs key s x b n (next_block-Facts s block encoded remaining n).0 p empty
          (subst (λ (z : Bytes × Bytes). Found z.0 z.1 remaining x) same ih)

    split_loop-Found :
        (f : ℕ) (certs key s : Bytes) (x : Bytes × Bytes)
        → split_loop k f certs key s ≡ ok x
        → Found certs key s x
    unfolding split_loop take_block go_on Found Joined Facts
    split_loop-Found zero certs key s x e = cc
    split_loop-Found (suc f) certs key s x e = elim (if-cases (is_blank s) e) [
      | inl (b, e') ↦
          ([], [], [], end b, nothing, ground (arith, append-nil certs, e'), inr (refl, cc))
      | inr (b, e') ↦
          let ((block, (encoded, remaining)), n, e1) =
            >>=-eq-ok (next_block k s) (take_block k (split_loop k f) certs key) e' in
          let (y, a, e2) =
            >>=-eq-ok (add_block k certs key block encoded) (go_on k (split_loop k f) remaining)
              e1 in
          of_Added certs key s encoded remaining block x b n y
            (add_block-Added k certs key block encoded y a)
            (split_loop-Found f y.0 y.1 remaining x e2)
    ]

    -- With enough fuel, what is described is found.
    split_loop_complete :
        (f : ℕ) (certs key s : Bytes) (items : List Item) (cs later p : Bytes)
        → length s < f
        → Looped k s items
        → Bundle k items cs later
        → Joined k key later p
        → split_loop k f certs key s ≡ ok (certs ++ cs, p)
    unfolding split_loop take_block go_on Joined Added Facts
    split_loop_complete zero certs key s items cs later p l q u j = absurd (omega (arith, l))
    split_loop_complete (suc f) certs key s [] _ _ p l (end b) nothing j =
        rw b (ground (arith, append-nil certs))
    split_loop_complete (suc f) certs key s (_ ∷ items) _ _ p l
          (next {remaining = remaining} {encoded = encoded} {block = block} b n q)
          (certificate {certs = cs} {key = later} c u) j =
        let a = Added-add_block k certs key block encoded (certs ++ encoded, key) (inl (c, refl)) in
        let less = (next_block-Facts s block encoded remaining n).1 in
        let ih =
          split_loop_complete f (certs ++ encoded) key remaining items cs later p
            (omega (arith, l, less)) q u j in
        rw (b, n, a) (ih ∙ ap (λ z. ok (z, p)) (append_assoc certs encoded cs))
    split_loop_complete (suc f) certs key s (_ ∷ items) _ _ p l
          (next {remaining = remaining} {encoded = encoded} {block = block} b n q)
          (private_key {certs = cs} c u) (inl (empty, same)) =
        let a = Added-add_block k certs key block encoded (certs, encoded) (inr (c, empty, refl)) in
        let less = (next_block-Facts s block encoded remaining n).1 in
        let ih =
          split_loop_complete f certs encoded remaining items cs [] p (omega (arith, l, less)) q u
            (inr (refl, same)) in
        rw (b, n, a) ih
    split_loop_complete (suc f) certs key s (_ ∷ items) _ _ p l
          (next {remaining = remaining} {encoded = encoded} {block = block} b n q) (private_key c u)
          (inr (empty, same)) =
        absurd ((next_block-Facts s block encoded remaining n).0 empty)

    require_both-ok :
        (x : Bytes × Bytes) (certs key : Bytes)
        → require_both k x ≡ ok (certs, key)
        → (x ≡ (certs, key)) × (certs ≢ []) × (key ≢ [])
    unfolding require_both
    require_both-ok ([], key') certs key e = cc
    require_both-ok (c ∷ certs', []) certs key e = cc
    require_both-ok (c ∷ certs', b ∷ key') certs key e = (cc, λ n. cc, λ n. cc)

    Joined-nil : (later p : Bytes) → Joined k [] later p → later ≡ p
    unfolding Joined
    Joined-nil later p (inl (e, same)) = sym same
    Joined-nil later p (inr (e, same)) = e ∙ sym same

    Bundle-at :
        (items : List Item) (cs later certs key : Bytes)
        → Bundle k items cs later
        → cs ≡ certs
        → later ≡ key
        → Bundle k items certs key
    Bundle-at items cs later certs key u e f =
        subst (λ z. Bundle k items z key) e (subst (Bundle k items cs) f u)

    both-required :
        (certs key : Bytes) → certs ≢ [] → key ≢ [] → require_both k (certs, key) ≡ ok (certs, key)
    unfolding require_both
    both-required [] key c p = absurd (c refl)
    both-required (c' ∷ certs) [] c p = absurd (p refl)
    both-required (c' ∷ certs) (b ∷ key) c p = refl

    -- What the rounds take is what `splitMaterial` accepts.
    pub split_material-Looped :
        (body certs key : Bytes)
        → (split_material k body ≡ ok (certs, key)) ↔ (
            (items : List Item) × Looped k body items
            × Bundle k items certs key
            × (certs ≢ [])
            × (key ≢ []))
    unfolding split_material Found Joined
    split_material-Looped body certs key = (
      λ e.
          let (x, l, r) =
            >>=-eq-ok (split_loop k (suc (length body)) [] [] body) (require_both k) e in
          let (same, c, p) = require_both-ok x certs key r in
          let (items, cs, later, q, u, e1, j) =
            split_loop-Found (suc (length body)) [] [] body x l in
          (
            items,
            q,
            Bundle-at items cs later certs key u (sym e1 ∙ ap (λ (z : Bytes × Bytes). z.0) same)
                (Joined-nil later x.1 j ∙ ap (λ (z : Bytes × Bytes). z.1) same),
            c,
            p,
          ),
      λ (items, q, u, c, p).
          rw
            (split_loop_complete (suc (length body)) [] [] body items certs key key (omega arith) q
              u (inl (refl, refl)))
            (both-required certs key c p),
    )
