-- ===== src/Page/Report/Counts.antt =====
-- ui/dashboard.go: what `sendTestRequests` of the page counts.
use Prim.Native.Char.{Char}
use poly_balance.Base.{
  Option, none, some, Bool, ℕ, ◌+◌, String, false, Bool-cases, inl, inr, List, [], ◌∷◌, str_eq,
  if◌then◌else◌, arith,
}
use poly_balance.Dashboard.{Fetched, lost, got, Sent}
use poly_balance.Page.Report.{is_error, backend_of, tally, count_all}
use poly_balance.Page.Report.Sorting.{ArePositive}

-- The name that a result speaks for: none if it has an error, and "unknown" if it names no backend.
abbrev pub speaks_for : Fetched → Option String
speaks_for (lost String.[]) = some "unknown"
speaks_for (lost (String.◌∷◌ c message)) = none
speaks_for (got code none) = some "unknown"
speaks_for (got code (some String.[])) = some "unknown"
speaks_for (got code (some (String.◌∷◌ c name))) = some (String.◌∷◌ c name)

-- How many results speak for a name, and how many for none.
abbrev pub is_for : String → Option String → Bool
is_for name none = false
is_for name (some other) = str_eq other name

abbrev pub named : String → List Sent → ℕ
named name [] = 0
named name (r ∷ rs) = (if is_for name (speaks_for r.outcome) then 1 else 0) + named name rs

abbrev pub failed_count : List Sent → ℕ
failed_count [] = 0
failed_count (r ∷ rs) = (elim (speaks_for r.outcome) [ none ↦ 1 | some name ↦ 0 ]) + failed_count rs

tally-ArePositive :
    (name : String) (xs : List (String × ℕ)) → ArePositive xs → ArePositive (tally name xs)
unfolding tally
tally-ArePositive name [] h = (omega arith, tt)
tally-ArePositive name ((key, n) ∷ xs) h = ground (arith, tally-ArePositive name xs h.1)

pub count_all-ArePositive :
    (xs : List (String × ℕ)) (e : ℕ) (rs : List Sent)
    → ArePositive xs
    → ArePositive (count_all xs e rs).0
unfolding count_all
count_all-ArePositive xs e [] h = h
count_all-ArePositive xs e (r ∷ rs) h = elim (Bool-cases (is_error r.outcome)) [
  | inl bad ↦ rw bad (count_all-ArePositive xs (e + 1) rs h)
  | inr good ↦ rw good (
      count_all-ArePositive (tally (backend_of r.outcome) xs) e rs
        (tally-ArePositive (backend_of r.outcome) xs h))
]
