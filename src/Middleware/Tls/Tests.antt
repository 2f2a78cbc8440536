-- ===== src/Middleware/Tls/Tests.antt =====
-- A certificate library for the tests of middleware/tls.go.
use Prim.Native.String.{◌++◌}
use poly_balance.Http.{Request, Writer, unsent, header_get, redirect, write, write_header}
use poly_balance.Middleware.Tls.Redirect.{https_redirect}
use poly_balance.Base.{
  ℕ, ◌+◌, pos, [], ◌∷◌, String, true, Option, none, some, ◌≡◌, refl, str_eq, if◌then◌else◌,
}
use poly_balance.Middleware.Tls.{
  TlsConfig, Files, put_file, Library, World, write_key, write_files, generate, get_tls_config,
  settings, load_settings, has_value,
}
use poly_balance.Middleware.Tls.Retry.{get_tls_config-again}

abbrev tls : TlsConfig
tls = record { enabled = true; cert_file = "cert.pem"; key_file = "key.pem"; auto_gen_cert = true }

-- A pair loads if both files hold something.
abbrev load_pair : Option String → Option String → Option String
load_pair none key = none
load_pair (some cert) none = none
load_pair (some cert) (some key) = if str_eq key "" then none else some (cert ++ key)

abbrev simple : Library ℕ String
simple = record {
  create_certificate = λ t key. some "der";
  marshal = λ key. some "key";
  pem = λ kind bytes. kind ++ bytes;
  load = load_pair;
}

-- A disk that refuses the key's file, and one that refuses nothing.
abbrev no_key_file : World ℕ
no_key_file = record {
  key = some 5;
  serial = some 7;
  now = 0;
  can_create = λ p. str_eq p "cert.pem";
  can_write = λ p. true;
}

abbrev repaired : World ℕ
repaired = record {
  key = some 5;
  serial = some 7;
  now = 1;
  can_create = λ p. true;
  can_write = λ p. true;
}

abbrev no_files : Files
no_files p = none

load_pair-missing : (cert : Option String) → load_pair cert none ≡ none
load_pair-missing none = refl
load_pair-missing (some cert) = refl

load_pair-empty : (cert : Option String) → load_pair cert (some "") ≡ none
load_pair-empty none = refl
load_pair-empty (some cert) = refl

cert_left : has_value ((get_tls_config simple tls no_key_file no_files).0 "cert.pem") ≡ true
unfolding get_tls_config generate write_files write_key put_file load_settings
cert_left = refl

get_tls_config-again_example :
    get_tls_config simple tls repaired (get_tls_config simple tls no_key_file no_files).0
    ≡ get_tls_config simple tls no_key_file no_files
get_tls_config-again_example =
    get_tls_config-again simple tls no_key_file repaired no_files refl refl load_pair-missing
      load_pair-empty cert_left

-- The generation failed, and on a disk without a certificate the later call would have succeeded.
first_fails : (get_tls_config simple tls no_key_file no_files).1 ≡ none
unfolding get_tls_config generate write_files write_key put_file load_settings
first_fails = refl

fresh_succeeds :
    (get_tls_config simple tls repaired no_files).1
    ≡ some (settings ("CERTIFICATEder" ++ "EC PRIVATE KEYkey"))
unfolding get_tls_config generate write_files write_key put_file load_settings
fresh_succeeds = refl

-- A request that came over http, and its answer.
abbrev over : String → Request
over scheme = record {
  method = "HEAD";
  host = "example.com";
  uri = "/a?b=c";
  path = "/a";
  raw_query = "b=c";
  query = λ name. if str_eq name "b" then "c" else "";
  remote_addr = "10.0.0.1:80";
  header = ("X-Forwarded-Proto", scheme ∷ []) ∷ [];
  content_length = pos 0;
  body = [];
}

abbrev greeting : Request → ℕ × Writer → ℕ × Writer
greeting r (n, w) = (n + 1, write "hello" w)

sent_to_https :
    https_redirect (λ target. target) greeting (over "http") (0, unsent)
    ≡ (0, record { sent = some 301; location = some "https://example.com/a?b=c"; body = [] })
unfolding https_redirect header_get redirect write_header
sent_to_https = refl

handed_on :
    https_redirect (λ target. target) greeting (over "https") (0, unsent)
    ≡ greeting (over "https") (0, unsent)
unfolding https_redirect header_get
handed_on = refl
