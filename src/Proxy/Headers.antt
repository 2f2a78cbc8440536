-- ===== src/Proxy/Headers.antt =====
-- The headers that proxy/reverse_proxy.go adds to a request.
use Prim.Native.String.{◌++◌}
use poly_balance.Base.{
  ℕ, ◌+◌, ◌%◌, String, ◌≡◌, refl, ◌∙◌, subst, Option, some, str_eq, Bool-cases, inl, inr,
  if◌then◌else◌,
}
use poly_balance.Http.{Header, header_get}
use poly_balance.Http.Headers.{header_get-set_self, header_get-set_other}
use poly_balance.Proxy.{prepare_request, forwarded_for, request_id}

forwarded_for-id :
    (client : String) (h : Header)
    → header_get "X-Request-ID" (forwarded_for (some client) h) ≡ header_get "X-Request-ID" h
unfolding forwarded_for
forwarded_for-id client h = elim (Bool-cases (str_eq (header_get "X-Forwarded-For" h) "")) [
  | inl alone ↦ rw alone (header_get-set_other "X-Request-ID" "X-Forwarded-For" client h refl)
  | inr behind ↦ rw behind (header_get-set_other "X-Request-ID" "X-Forwarded-For" _ h refl)
]

forwarded_for-address :
    (client : String) (h : Header)
    → let prior = header_get "X-Forwarded-For" h in
      header_get "X-Forwarded-For" (forwarded_for (some client) h)
      ≡ (if str_eq prior "" then client else prior ++ (", " ++ client))
unfolding forwarded_for
forwarded_for-address client h = elim (Bool-cases (str_eq (header_get "X-Forwarded-For" h) "")) [
  | inl alone ↦ rw alone (header_get-set_self "X-Forwarded-For" client h)
  | inr behind ↦ rw behind (header_get-set_self "X-Forwarded-For" _ h)
]

request_id_lem :
    (sprint : ℕ → ℕ → String) (now counter : ℕ) (h : Header)
    → let r = request_id sprint now (counter, h) in
      let id = header_get "X-Request-ID" h in
      let next = (counter + 1) % 18446744073709551616 in
      (header_get "X-Forwarded-For" r.1 ≡ header_get "X-Forwarded-For" h)
      × (header_get "X-Request-ID" r.1 ≡ (if str_eq id "" then sprint now next else id))
      × (r.0 ≡ (if str_eq id "" then next else counter))
unfolding request_id
request_id_lem sprint now counter h = elim (Bool-cases (str_eq (header_get "X-Request-ID" h) "")) [
  | inl unnamed ↦ rw unnamed (
    header_get-set_other "X-Forwarded-For" "X-Request-ID" _ h refl,
    header_get-set_self "X-Request-ID" _ h,
    refl,
  )
  | inr named ↦ rw named (refl, refl, refl)
]

-- A request leaves the preparation with the client's address last in X-Forwarded-For, behind what
-- was there; an identifier that it came with is kept and the counter not used, and otherwise it
-- gets one made of the clock and the next value of the counter.
pub prepare_request_lem :
    (split_host : String → Option String) (sprint : ℕ → ℕ → String) (now counter : ℕ)
    (addr client : String) (h : Header)
    → split_host addr ≡ some client
    → let r = prepare_request split_host sprint now addr (counter, h) in
      let prior = header_get "X-Forwarded-For" h in
      let id = header_get "X-Request-ID" h in
      let next = (counter + 1) % 18446744073709551616 in
      (header_get "X-Forwarded-For" r.1
        ≡ (if str_eq prior "" then client else prior ++ (", " ++ client)))
      × (header_get "X-Request-ID" r.1 ≡ (if str_eq id "" then sprint now next else id))
      × (r.0 ≡ (if str_eq id "" then next else counter))
unfolding prepare_request
prepare_request_lem split_host sprint now counter addr client h e =
    let h' = forwarded_for (some client) h in
    let same : header_get "X-Request-ID" h' ≡ header_get "X-Request-ID" h =
      forwarded_for-id client h in
    let (address, id, count) = request_id_lem sprint now counter h' in
    rw e (
      address ∙ forwarded_for-address client h,
      subst
          (λ t.
            header_get "X-Request-ID" (request_id sprint now (counter, h')).1
            ≡ (if str_eq t "" then sprint now ((counter + 1) % 18446744073709551616) else t))
          same id,
      subst
          (λ t.
            (request_id sprint now (counter, h')).0
            ≡ (if str_eq t "" then (counter + 1) % 18446744073709551616 else counter))
          same count,
    )
