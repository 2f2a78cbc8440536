-- ===== src/Url.antt =====
-- net/url: the parts of a URL that the program reads or sets, and its text.
use Prim.Native.String.{◌++◌}
use text.Mathlib.Text.{starts_with}
use poly_balance.Base.{String, ◌||◌, ◌&&◌, str_eq, if◌then◌else◌}

-- The parts of a `url.URL` that the program reads or sets.
pub record Url : Type 0 where
  pub scheme : String
  pub host : String
  pub path : String

-- `(*url.URL).String` at the parts that the program uses, none of which needs escaping.
unfoldable pub url_text : Url → String
url_text u =
    (if str_eq u.scheme "" then "" else u.scheme ++ ":")
    ++ (if str_eq u.scheme "" && str_eq u.host "" || str_eq u.host "" && str_eq u.path ""
        then u.host
        else "//" ++ u.host)
    ++ (if str_eq u.path "" || starts_with u.path "/" || str_eq u.host ""
        then u.path
        else "/" ++ u.path)
