-- ===== src/Page/Report.antt =====
-- ui/dashboard.go: `sendTestRequests` of the page, which counts the answers by backend and prints the
-- distribution. Names of backends are taken to be neither integers nor members of every object, such
-- as "constructor"; integers are below 2^53.
pub mod Sorting
pub mod Counts
pub mod Bars
use Prim.Native.Char.{Char, code}
use Prim.Native.String.{◌++◌}
use poly_balance.Base.{
  ℕ, zero, suc, ◌+◌, ◌*◌, ◌-◌, String, Bool, true, false, not, ◌&&◌, ◌==◌, Option, none, some, ℤ,
  pos, negsuc, sub_ℕ, eqb_ℤ, List, [], ◌∷◌, ltb, leb, str_eq, if◌then◌else◌, pos_part,
}
use poly_balance.Text.{concat}
use poly_balance.Http.Mux.{size}
use poly_balance.Dashboard.{Fetched, lost, got, Sent, Answer, requests_sent}
use poly_balance.Page.{
  Browser, Page, Kind, info, success, error, Reply, thrown, refused, answered, log,
}

-- The value of the digits that a text begins with.
unfoldable pub leading_digits : ℕ → String → ℕ
leading_digits acc String.[] = acc
leading_digits acc (String.◌∷◌ c s) =
    let rest = leading_digits (acc * 10 + (code c - b'0')) s in
    if leb b'0' (code c) && leb (code c) b'9' then rest else acc

abbrev pub starts_with_digit : String → Bool
starts_with_digit String.[] = false
starts_with_digit (String.◌∷◌ c s) = leb b'0' (code c) && leb (code c) b'9'

-- `parseInt` of what a number field holds, which is a numeral or nothing; `none` is NaN.
unfoldable pub parse_int : String → Option ℤ
unfolding leading_digits
parse_int String.[] = none
parse_int (String.◌∷◌ c s) =
    if code c == b'-'
    then (if starts_with_digit s then some (sub_ℕ 0 (leading_digits 0 s)) else none)
    else if starts_with_digit (String.◌∷◌ c s)
    then some (pos (leading_digits 0 (String.◌∷◌ c s)))
    else none

-- `parseInt(...) || 10`.
unfoldable pub requested : Page → ℤ
unfolding parse_int
requested p = elim (parse_int p.request_count) [
  | none ↦ pos 10
  | some n ↦ if eqb_ℤ n (pos 0) then pos 10 else n
]

-- Whether a text is not empty.
unfoldable pub is_given : String → Bool
is_given s = not (str_eq s "")

-- The error of a result, and the name that it counts for, if it counts for one.
unfoldable pub is_error : Fetched → Bool
unfolding is_given
is_error (lost message) = is_given message
is_error (got code name) = false

unfoldable pub backend_of : Fetched → String
unfolding is_given
backend_of (lost message) = "unknown"
backend_of (got code none) = "unknown"
backend_of (got code (some name)) = if is_given name then name else "unknown"

-- `summary[backend] = (summary[backend] || 0) + 1`.
unfoldable pub tally : String → List (String × ℕ) → List (String × ℕ)
tally name [] = (name, 1) ∷ []
tally name ((key, n) ∷ summary) =
    if str_eq key name then (key, n + 1) ∷ summary else (key, n) ∷ tally name summary

-- The loop over the results, with the summary and the errors so far.
unfoldable pub count_all : List (String × ℕ) → ℕ → List Sent → List (String × ℕ) × ℕ
unfolding is_error backend_of tally
count_all summary errors [] = (summary, errors)
count_all summary errors (r ∷ rs) =
    if is_error r.outcome
    then count_all summary (errors + 1) rs
    else count_all (tally (backend_of r.outcome) summary) errors rs

-- `sort((a, b) => b[1] - a[1])`, which is stable.
unfoldable pub insert : String × ℕ → List (String × ℕ) → List (String × ℕ)
insert x [] = x ∷ []
insert x (y ∷ ys) = if ltb x.1 y.1 then y ∷ insert x ys else x ∷ y ∷ ys

unfoldable pub sort : List (String × ℕ) → List (String × ℕ)
unfolding insert
sort [] = []
sort (x ∷ xs) = insert x (sort xs)

abbrev pub max_count : List (String × ℕ) → ℕ
max_count [] = 0
max_count ((name, n) ∷ rest) = n

-- `repeat`, which throws at a negative count.
abbrev pub repeated : ℕ → String → String
repeated zero s = ""
repeated (suc n) s = s ++ repeated n s

unfoldable pub repeat : ℤ → String → Option String
repeat (pos n) s = some (repeated n s)
repeat (negsuc n) s = none

-- `padStart` with spaces.
unfoldable pub pad_start : ℕ → String → String
unfolding size
pad_start n s = repeated (n - size s) " " ++ s

-- `split(':').pop()`.
unfoldable pub last_part : String → String → String
last_part part String.[] = part
last_part part (String.◌∷◌ c s) = if code c == b':' then last_part s s else last_part part s

-- 20 - n.
abbrev pub rest_of_bar : ℤ → ℤ
rest_of_bar (pos n) = sub_ℕ 20 n
rest_of_bar (negsuc n) = pos (21 + n)

-- The line of one backend, unless `repeat` throws.
unfoldable pub line : Browser → ℤ → ℕ → String × ℕ → Option String
unfolding repeat pad_start last_part
line b count most (name, n) =
    let bar_len = b.round_share n (pos most) 20 in
    elim (repeat bar_len "█") [
      | none ↦ none
      | some full ↦ elim (repeat (rest_of_bar bar_len) "░") [
        | none ↦ none
        | some empty ↦ some (
            concat (
              "Backend :"
              ∷ last_part name name
              ∷ " │ "
              ∷ full
              ∷ empty
              ∷ " │ "
              ∷ pad_start 3 (b.text_of (pos n))
              ∷ " reqs ("
              ∷ pad_start 2 (b.text_of (b.round_share n count 100))
              ∷ "%)\n"
              ∷ []))
      ]
    ]

unfoldable pub lines : Browser → ℤ → ℕ → List (String × ℕ) → Option String
unfolding line
lines b count most [] = some ""
lines b count most (x ∷ xs) = elim (line b count most x) [
  | none ↦ none
  | some l ↦ elim (lines b count most xs) [ none ↦ none | some ls ↦ some (l ++ ls) ]
]

abbrev pub rule : String
rule = "━━━━━━━━━━━━━━━━━━━━━━━━━━━━━━━━━━━━━━━━"

-- `count - errors`.
abbrev pub less : ℤ → ℕ → ℤ
less (pos n) errors = sub_ℕ n errors
less (negsuc n) errors = negsuc (n + errors)

-- The report, unless a line throws.
unfoldable pub report_text : Browser → String → String → ℤ → List (String × ℕ) × ℕ → Option String
unfolding lines sort
report_text b time strategy count (summary, errors) =
    elim (lines b count (max_count (sort summary)) (sort summary)) [
      | none ↦ none
      | some body ↦ some (
          concat (
            rule
            ∷ "\nLOAD DISTRIBUTION REPORT\nTime: "
            ∷ time
            ∷ " | Strategy: "
            ∷ strategy
            ∷ "\nTotal Requests: "
            ∷ b.text_of count
            ∷ " | Successful: "
            ∷ b.text_of (less count errors)
            ∷ " | Failed: "
            ∷ b.text_of (pos errors)
            ∷ "\n"
            ∷ rule
            ∷ "\n\n"
            ∷ body
            ∷ (if ltb 0 errors
                then concat (
                    "\nErrors: "
                    ∷ b.text_of (pos errors)
                    ∷ " requests failed (no healthy backend)\n"
                    ∷ [])
                else "")
            ∷ "\n"
            ∷ rule
            ∷ []))
    ]

unfoldable pub send_test_requests : Browser → String → Page → Page
unfolding log requested
send_test_requests b time p =
    log time info
      (concat (
        "["
        ∷ time
        ∷ "] Sending "
        ∷ b.text_of (requested p)
        ∷ " requests using "
        ∷ p.strategy
        ∷ " strategy..."
        ∷ []))
      p

-- The results as the script reads them; the handler gives no other answer.
unfoldable pub requests_reply : Browser → Answer → Reply (List Sent)
requests_reply b (requests_sent count results) = answered results
requests_reply b a = thrown b.not_json

-- What follows the request: `time`, `strategy` and `count` are those that were read before it. The
-- lists are fetched next.
unfoldable pub requests_tested :
    Browser → String → String → String → ℤ → Reply (List Sent) → Page → Page
unfolding log report_text count_all
requests_tested b now time strategy count (thrown message) p =
    log now error (concat ("[" ∷ time ∷ "] Test requests failed: " ∷ message ∷ [])) p
requests_tested b now time strategy count refused p = p
requests_tested b now time strategy count (answered results) p =
    elim (report_text b time strategy count (count_all [] 0 results)) [
      | none ↦ log now error (concat ("[" ∷ time ∷ "] Test requests failed: " ∷ b.bad_count ∷ [])) p
      | some text ↦ log now (if ltb 0 (count_all [] 0 results).1 then error else success) text p
    ]
