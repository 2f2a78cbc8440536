-- ===== src/Middleware/RequestLimiter/Limits.antt =====
-- What middleware/requestlimit.go lets through.
use Prim.Native.String.{len}
use mathlib.Core.List.{Permᴰ}
use poly_balance.Base.{
  ℕ, ◌+◌, ◌≤◌, String, true, Bool-cases, inl, inr, ◌⊎◌, some, none, pos, ltb_ℤ, ◌≤ℤ◌,
  ≤ℤ_total_of_ltb, ltb_ℤ→not_≤ℤ, first_branch, last_branch, then_branch, else_branch, pos_part,
  zero, suc, List, [], ◌∷◌, ◌≡◌, refl, ◌∙◌, ap, length, take, arith,
}
use poly_balance.Http.{Header, Request, Writer, write, write_header}
use poly_balance.Middleware.RequestLimiter.{
  RequestLimiter, values_size, header_size, max_bytes_reader, limited,
}

-- The bytes of all names and values.
abbrev pub values_bytes : List String → ℕ
values_bytes [] = 0
values_bytes (v ∷ vs) = len v + values_bytes vs

abbrev pub header_bytes : Header → ℕ
header_bytes [] = 0
header_bytes ((name, values) ∷ h) = len name + values_bytes values + header_bytes h

abbrev entry_bytes : String × List String → ℕ
entry_bytes x = len x.0 + values_bytes x.1

values_size-bytes : (n : ℕ) (vs : List String) → values_size n vs ≡ n + values_bytes vs
unfolding values_size
values_size-bytes n [] = omega arith
values_size-bytes n (v ∷ vs) = values_size-bytes (n + len v) vs ∙ omega arith

header_size-bytes : (n : ℕ) (h : Header) → header_size n h ≡ n + header_bytes h
unfolding header_size
header_size-bytes n [] = omega arith
header_size-bytes n ((name, values) ∷ h) =
    header_size-bytes (values_size (n + len name) values) h
    ∙ omega (arith, values_size-bytes (n + len name) values)

header_bytes-perm : {h k : Header} → Permᴰ h k → header_bytes h ≡ header_bytes k
header_bytes-perm Permᴰ.nil = refl
header_bytes-perm (Permᴰ.cons {a = a} {b = b} {l₁ = l} {l₂ = m} e p) =
    ap (λ x. header_bytes (x ∷ l)) e
    ∙ ap (λ n. len b.0 + values_bytes b.1 + n) (header_bytes-perm p)
header_bytes-perm (Permᴰ.swap {a = a} {b = b} {a' = a'} {b' = b'} {l = l} e f) =
    omega (arith, ap entry_bytes e, ap entry_bytes f)
header_bytes-perm (Permᴰ.trans p q) = header_bytes-perm p ∙ header_bytes-perm q

-- Go walks the headers in any order: every order gives the same size, the number of bytes of all
-- names and values.
pub header_size-perm :
    {h k : Header}
    → Permᴰ h k
    → (header_size 0 h ≡ header_bytes k) × (header_size 0 h ≡ header_size 0 k)
header_size-perm {h} {k} p =
    let a : header_size 0 h ≡ header_bytes k =
      header_size-bytes 0 h ∙ omega (arith, header_bytes-perm p) in
    (a, a ∙ omega (arith, header_size-bytes 0 k))

length-take-le : {A : Type 0} (n : ℕ) (xs : List A) → length (take n xs) ≤ n
length-take-le zero xs = omega arith
length-take-le (suc n) [] = omega arith
length-take-le (suc n) (x ∷ xs) = omega (arith, length-take-le n xs)

module _ {S : Type 0} (next : Request → S × Writer → S × Writer) (rl : RequestLimiter) where
  -- An enabled limiter hands a request on exactly when its headers and its declared length are
  -- within the limits, and then the next handler reads no more of the body than the limit, whatever
  -- length was declared; otherwise the next handler is not run, and the client gets 431 for the
  -- headers or, if those are within the limit, 413 for the body.
  pub limited_cases :
      (r : Request) (s : S) (w : Writer)
      → rl.enabled ≡ true
      → w.sent ≡ none
      → ((pos (header_size 0 r.header) ≤ℤ rl.max_header_size)
          × (r.content_length ≤ℤ rl.max_body_size)
          × (q : Request) × (limited next rl r (s, w) ≡ next q (s, w))
          × (q ≡ record r { body = take (pos_part rl.max_body_size) r.body })
          × (length q.body ≤ pos_part rl.max_body_size))
        ⊎ (((limited next rl r (s, w)).0 ≡ s)
            × (((¬ (pos (header_size 0 r.header) ≤ℤ rl.max_header_size))
                  × ((limited next rl r (s, w)).1.sent ≡ some 431))
                ⊎ ((pos (header_size 0 r.header) ≤ℤ rl.max_header_size)
                    × (¬ (r.content_length ≤ℤ rl.max_body_size))
                    × ((limited next rl r (s, w)).1.sent ≡ some 413))))
  unfolding limited write_header write max_bytes_reader
  limited_cases r s w on unsent =
      elim (Bool-cases (ltb_ℤ rl.max_header_size (pos (header_size 0 r.header)))) [
        | inl big ↦
            let e = first_branch rl.enabled _ (next r (s, w)) _ _ on big in
            inr (
              ap (λ p. p.0) e,
              inl (
                ltb_ℤ→not_≤ℤ rl.max_header_size (pos (header_size 0 r.header)) big,
                ap (λ p. p.1.sent) e ∙ ground arith,
              ),
            )
        | inr fits ↦
            let small = ≤ℤ_total_of_ltb rl.max_header_size (pos (header_size 0 r.header)) fits in
            elim (Bool-cases (ltb_ℤ rl.max_body_size r.content_length)) [
              | inl long ↦
                  let e =
                    last_branch rl.enabled _ (next r (s, w)) _ _ on fits ∙ then_branch _ _ _ long in
                  inr (
                    ap (λ p. p.0) e,
                    inr (
                      small,
                      ltb_ℤ→not_≤ℤ rl.max_body_size r.content_length long,
                      ap (λ p. p.1.sent) e ∙ ground arith,
                    ),
                  )
              | inr short ↦ inl (
                small,
                ≤ℤ_total_of_ltb rl.max_body_size r.content_length short,
                record r { body = take (pos_part rl.max_body_size) r.body },
                last_branch rl.enabled _ (next r (s, w)) _ _ on fits ∙ else_branch _ _ _ short,
                refl,
                length-take-le (pos_part rl.max_body_size) r.body,
              )
            ]
      ]
