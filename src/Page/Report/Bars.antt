-- ===== src/Page/Report/Bars.antt =====
-- ui/dashboard.go: the bars that `sendTestRequests` of the page draws.
use poly_balance.Base.{
  ℕ, ◌-◌, ◌≤◌, ◌<◌, ◌≡◌, refl, String, Option, some, ℤ, pos, negsuc, ◌≤ℤ◌, List, [], ◌∷◌, arith,
}
use poly_balance.Dashboard.{Sent}
use poly_balance.Page.{Browser}
use poly_balance.Page.Report.{
  count_all, sort, max_count, line, lines, report_text, repeat, rest_of_bar,
}
use poly_balance.Page.Report.Sorting.{
  ArePositive, IsDescending, AreAtMost, sort-All, sort-IsDescending,
}
use poly_balance.Page.Report.Counts.{count_all-ArePositive}

-- There is a value.
abbrev pub Given : Option String → Type 0
Given o = (s : String) × (o ≡ some s)

-- A length of a bar from 0 to 20 leaves a rest that is not negative.
bar : (n : ℤ) → pos 0 ≤ℤ n → n ≤ℤ pos 20 → (k : ℕ) × (m : ℕ) × (n ≡ pos k) × (rest_of_bar n ≡ pos m)
bar (pos k) least most = (k, 20 - k, refl, ground arith)
bar (negsuc k) least most = absurd (omega arith)

line-Given :
    (b : Browser) (count : ℤ) (most : ℕ) (x : String × ℕ)
    → 0 < x.1
    → x.1 ≤ most
    → Given (line b count most x)
unfolding line repeat
line-Given b count most (name, n) p h =
    let bounds = b.round_share-bounds n most 20 (omega arith) h in
    let (k, m, full, empty) = bar (b.round_share n (pos most) 20) bounds.0 bounds.1 in
    rw (full, line) (rw empty (_, refl))

lines-Given :
    (b : Browser) (count : ℤ) (most : ℕ) (xs : List (String × ℕ))
    → ArePositive xs
    → AreAtMost most xs
    → Given (lines b count most xs)
unfolding lines
lines-Given b count most [] p h = ("", refl)
lines-Given b count most (x ∷ xs) p h =
    let (l, one) = line-Given b count most x p.0 h.0 in
    let (ls, others) = lines-Given b count most xs p.1 h.1 in
    rw (one, lines) (rw (others, lines) (_, refl))

first_is_most : (xs : List (String × ℕ)) → IsDescending xs → AreAtMost (max_count xs) xs
first_is_most [] h = tt
first_is_most (x ∷ xs) h = (omega arith, h.0)

-- Whatever results come, and whatever number of requests the page read before, no bar is longer than
-- its 20 places, so that `repeat` does not throw and there is a report.
pub report-Given :
    (b : Browser) (time strategy : String) (count : ℤ) (rs : List Sent)
    → Given (report_text b time strategy count (count_all [] 0 rs))
unfolding report_text
report-Given b time strategy count rs =
    let summary = (count_all [] 0 rs).0 in
    let (body, drawn) =
      lines-Given b count (max_count (sort summary)) (sort summary)
        (sort-All (λ x. 0 < x.1) summary (count_all-ArePositive [] 0 rs tt))
        (first_is_most (sort summary) (sort-IsDescending summary)) in
    rw (drawn, report_text) (_, refl)
