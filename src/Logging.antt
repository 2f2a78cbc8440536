-- ===== src/Logging.antt =====
-- internal/logging.go, with what the program uses of fmt: verbs of one letter, each of which takes one
-- argument, whose text is given. `%%` and flags are not used.
pub mod Lines
mod Tests
use Prim.Native.Char.{code}
use Prim.Native.String.{String, [], ◌∷◌, ◌++◌}
use poly_balance.Base.{ℕ, Bool, List, [], ◌∷◌, ◌==◌, if◌then◌else◌}

pub record Logger : Type 0 where
  pub prefix : String

unfoldable pub new_logger : String → Logger
new_logger prefix = record { prefix = "[" ++ (prefix ++ "] ") }

-- An argument: the name of its type, and the text that its verb gives.
pub record Argument : Type 0 where
  pub type_name : String
  pub text : String

-- What is printed of arguments that no verb takes.
unfoldable pub extra : List Argument → String
extra [] = ""
extra (a ∷ []) = a.type_name ++ ("=" ++ a.text)
extra (a ∷ b ∷ args) = a.type_name ++ ("=" ++ (a.text ++ (", " ++ extra (b ∷ args))))

unfoldable pub left_over : List Argument → String
unfolding extra
left_over [] = ""
left_over (a ∷ args) = "%!(EXTRA " ++ (extra (a ∷ args) ++ ")")

-- `Sprintf`; a text that ends in a percent sign has no verb there.
unfoldable pub sprintf : String → List Argument → String
unfolding left_over
sprintf [] args = left_over args
sprintf (c ∷ []) args =
    if code c == b'%' then "%!(NOVERB)" ++ left_over args else c ∷ left_over args
sprintf (c ∷ d ∷ s) [] =
    let rest = sprintf s [] in
    let plain = sprintf (d ∷ s) [] in
    if code c == b'%' then "%!" ++ (d ∷ ("(MISSING)" ++ rest)) else c ∷ plain
sprintf (c ∷ d ∷ s) (a ∷ args) =
    let rest = sprintf s args in
    let plain = sprintf (d ∷ s) (a ∷ args) in if code c == b'%' then a.text ++ rest else c ∷ plain

-- The three methods: the line that is given to the log.
unfoldable pub info_line : Logger → String → List Argument → String
unfolding sprintf
info_line l message args = sprintf (l.prefix ++ message) args

unfoldable pub error_line : Logger → String → List Argument → String
unfolding sprintf
error_line l message args = sprintf (l.prefix ++ ("ERROR: " ++ message)) args

unfoldable pub debug_line : Logger → String → List Argument → String
unfolding sprintf
debug_line l message args = sprintf (l.prefix ++ ("DEBUG: " ++ message)) args
