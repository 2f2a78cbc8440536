-- ===== src/Logging/Lines.antt =====
-- internal/logging.go: the prefix stands before every line.
use Prim.Native.Char.{Char, code}
use Prim.Native.String.{String, [], ◌∷◌, ◌++◌}
use Prim.Native.String.append
use poly_balance.Base.{◌≡◌, refl, sym, ap, ◌∙◌, subst, false, List, [], ◌∷◌, ◌==◌, else_branch}
use poly_balance.Logging.{new_logger, Argument, sprintf, info_line, error_line, debug_line}

-- No percent sign.
abbrev pub IsPlain : String → Type 0
IsPlain [] = Unit
IsPlain (c ∷ s) = ((code c == b'%') ≡ false) × IsPlain s

IsPlain-append : (s t : String) → IsPlain s → IsPlain t → IsPlain (s ++ t)
IsPlain-append [] t h k = subst IsPlain (sym (append.nil t)) k
IsPlain-append (c ∷ s) t h k =
    subst IsPlain (sym (append.cons c s t)) (h.0, IsPlain-append s t h.1 k)

sprintf-cons :
    (c : Char) (s : String) (args : List Argument)
    → (code c == b'%') ≡ false
    → sprintf (c ∷ s) args ≡ c ∷ sprintf s args
unfolding sprintf
sprintf-cons c [] args h = else_branch (code c == b'%') _ _ h
sprintf-cons c (d ∷ s) [] h = else_branch (code c == b'%') _ _ h
sprintf-cons c (d ∷ s) (a ∷ args) h = else_branch (code c == b'%') _ _ h

sprintf-append :
    (s t : String) (args : List Argument) → IsPlain s → sprintf (s ++ t) args ≡ s ++ sprintf t args
sprintf-append [] t args h =
    ap (λ u. sprintf u args) (append.nil t) ∙ sym (append.nil (sprintf t args))
sprintf-append (c ∷ s) t args h =
    ap (λ u. sprintf u args) (append.cons c s t)
    ∙ sprintf-cons c (s ++ t) args h.0
    ∙ ap (λ (u : String). c ∷ u) (sprintf-append s t args h.1)
    ∙ sym (append.cons c s (sprintf t args))

-- A logger whose name has no percent sign writes lines that begin with the name in brackets, and an
-- error or debugging line with that word after it; the message is printed with the arguments as it
-- would be on its own.
pub lines-prefix :
    (name message : String) (args : List Argument)
    → IsPlain name
    → let l = new_logger name in
      (info_line l message args ≡ l.prefix ++ sprintf message args)
      × (error_line l message args ≡ l.prefix ++ ("ERROR: " ++ sprintf message args))
      × (debug_line l message args ≡ l.prefix ++ ("DEBUG: " ++ sprintf message args))
unfolding info_line error_line debug_line new_logger
lines-prefix name message args h =
    let l = new_logger name in
    let plain : IsPlain l.prefix =
      IsPlain-append "[" (name ++ "] ") (refl, tt)
        (IsPlain-append name "] " h (refl, (refl, tt))) in
    (
      sprintf-append l.prefix message args plain,
      sprintf-append l.prefix ("ERROR: " ++ message) args plain
          ∙ ap (λ t. l.prefix ++ t)
              (sprintf-append "ERROR: " message args
                (refl, (refl, (refl, (refl, (refl, (refl, (refl, tt)))))))),
      sprintf-append l.prefix ("DEBUG: " ++ message) args plain
          ∙ ap (λ t. l.prefix ++ t)
              (sprintf-append "DEBUG: " message args
                (refl, (refl, (refl, (refl, (refl, (refl, (refl, tt)))))))),
    )
