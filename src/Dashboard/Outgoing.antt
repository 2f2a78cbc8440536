-- ===== src/Dashboard/Outgoing.antt =====
-- ui/dashboard.go: the two handlers that make requests of their own.
-- What a GET of another server gives is an argument. A GET of the balancer itself changes it, so it is
-- a step on the state that the handler works on.
use Prim.Native.String.{◌++◌}
use poly_balance.Base.{
  ℕ, zero, suc, ◌+◌, ◌≤◌, ◌≡◌, refl, String, Bool, not, ◌&&◌, Option-cases, none, some, ℤ, pos,
  ltb_ℤ, leb_ℤ, pos_part, List, [], ◌∷◌, str_eq, if◌then◌else◌, ◌⊎◌, inl, inr, Bool-cases, arith,
}
use poly_balance.Text.{atoi}
use poly_balance.Http.{Request}
use poly_balance.Dashboard.{
  Answer, failed, url_missing, toggle_failed, toggled, requests_sent, Fetched, Sent,
}

-- The reply to a GET of `<url>/toggle-health`: an error, or the first 256 bytes of the body.
unfoldable pub handle_toggle_backend : (String → String ⊎ String) → Request → Answer
handle_toggle_backend get r =
    if not (str_eq r.method "POST")
    then failed "Method not allowed" 405
    else if str_eq (r.query "url") ""
    then url_missing
    else elim (get (r.query "url" ++ "/toggle-health")) [
      | inl error ↦ toggle_failed ("Failed to toggle: " ++ error)
      | inr result ↦ toggled result
    ]

-- The number of requests that a text asks for.
unfoldable pub count_of : String → ℕ
count_of text = if str_eq text "" then 10 else elim (atoi text) [
  | none ↦ 10
  | some val ↦ if ltb_ℤ (pos 0) val && leb_ℤ val (pos 100) then pos_part val else 10
]

unfoldable pub base_url : Bool → String → String
base_url tls host = (if tls then "https" else "http") ++ ("://" ++ host)

-- The loop: `left` requests to go, from number `i` on.
unfoldable pub send_loop : {S : Type 0} → (ℕ → S → S × ℕ × Fetched) → ℕ → ℕ → S → S × List Sent
send_loop fetch zero i s = (s, [])
send_loop fetch (suc left) i s =
    let (s', elapsed, outcome) = fetch i s in
    let (s'', rest) = send_loop fetch left (i + 1) s' in
    (s'', record { request_num = i + 1; elapsed_ms = elapsed; outcome = outcome } ∷ rest)

-- `fetch` is the GET of a URL's text, the n-th of the loop, with the milliseconds that it takes.
unfoldable pub handle_send_requests :
    {S : Type 0} → Bool → (String → ℕ → S → S × ℕ × Fetched) → Request → S → S × Answer
unfolding send_loop count_of
handle_send_requests tls fetch r s =
    let (s', results) =
      send_loop (fetch (base_url tls r.host ++ "/")) (count_of (r.query "count")) 0 s in
    (s', requests_sent (count_of (r.query "count")) results)

count_of-bounds : (text : String) → (1 ≤ count_of text) × (count_of text ≤ 100)
unfolding count_of
count_of-bounds text = elim (Bool-cases (str_eq text "")) [
  | inl empty ↦ rw empty (omega arith, omega arith)
  | inr given ↦ rw given (elim (Option-cases (atoi text)) [
    | inl none_read ↦ rw none_read (omega arith, omega arith)
    | inr (val, read) ↦ rw read (in_range val)
  ])
]
  where
    in_range :
        (val : ℤ)
        → let n = (if ltb_ℤ (pos 0) val && leb_ℤ val (pos 100) then pos_part val else 10) in
          (1 ≤ n) × (n ≤ 100)
    in_range val = (ground arith, ground arith)

-- The results of `n` requests, numbered on from `i`.
abbrev pub Numbered : ℕ → ℕ → List Sent → Type 0
Numbered i zero results = results ≡ []
Numbered i (suc n) [] = ⊥
Numbered i (suc n) (x ∷ results) = (x.request_num ≡ i + 1) × Numbered (i + 1) n results

send_loop-Numbered :
    {S : Type 0} (fetch : ℕ → S → S × ℕ × Fetched) (left i : ℕ) (s : S)
    → Numbered i left (send_loop fetch left i s).1
unfolding send_loop
send_loop-Numbered fetch zero i s = refl
send_loop-Numbered fetch (suc left) i s =
    (refl, send_loop-Numbered fetch left (i + 1) (fetch i s).0)

-- Whatever count the query gives and whatever the requests meet, between 1 and 100 requests are
-- made, and the answer has the result of each, numbered from 1.
pub handle_send_requests-Numbered :
    {S : Type 0} (tls : Bool) (fetch : String → ℕ → S → S × ℕ × Fetched) (r : Request) (s : S)
    → (n : ℕ) × (results : List Sent) × ((handle_send_requests tls fetch r s).1
        ≡ requests_sent n results)
      × (1 ≤ n)
      × (n ≤ 100)
      × Numbered 0 n results
unfolding handle_send_requests
handle_send_requests-Numbered tls fetch r s =
    let n = count_of (r.query "count") in
    let (least, most) = count_of-bounds (r.query "count") in
    (n, _, refl, least, most, send_loop-Numbered (fetch (base_url tls r.host ++ "/")) n 0 s)
