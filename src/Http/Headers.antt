-- ===== src/Http/Headers.antt =====
-- The laws of setting and reading headers.
use poly_balance.Base.{
  String, false, ◌≡◌, [], ◌∷◌, arith, str_eq, str_eq_refl, str_eq_iff, Bool-cases, inl, inr,
}
use poly_balance.Http.{Header, header_get, header_set}

pub header_get-set_self : (name v : String) (h : Header) → header_get name (header_set name v h) ≡ v
unfolding header_get header_set
header_get-set_self name v [] = rw (str_eq_refl name)
header_get-set_self name v ((n, []) ∷ h) = elim (Bool-cases (str_eq n name)) [
  | inl hit ↦ rw (hit, str_eq_refl name)
  | inr miss ↦ rw (miss, miss) (header_get-set_self name v h)
]
header_get-set_self name v ((n, u ∷ us) ∷ h) = elim (Bool-cases (str_eq n name)) [
  | inl hit ↦ rw (hit, str_eq_refl name)
  | inr miss ↦ rw (miss, miss) (header_get-set_self name v h)
]

pub header_get-set_other :
    (name other v : String) (h : Header)
    → str_eq other name ≡ false
    → header_get name (header_set other v h) ≡ header_get name h
unfolding header_get header_set
header_get-set_other name other v [] ne = rw ne
header_get-set_other name other v ((n, []) ∷ h) ne = ground (
  arith,
  str_eq_iff n other,
  str_eq_iff n name,
  str_eq_iff other name,
  header_get-set_other name other v h,
)
header_get-set_other name other v ((n, u ∷ us) ∷ h) ne = ground (
  arith,
  str_eq_iff n other,
  str_eq_iff n name,
  str_eq_iff other name,
  header_get-set_other name other v h,
)
