-- ===== src/Middleware/Tls.antt =====
-- middleware/tls.go: the server's certificate, generated when there is none.
-- What a call meets outside of the program is an argument: the random numbers, the clock and the
-- disk's refusals (`World`), and the libraries that make and read certificates (`Library`).
pub mod Retry
pub mod Redirect
mod Tests
use poly_balance.Base.{
  ℕ, ◌+◌, String, Bool, true, false, not, Option, none, some, List, [], ◌∷◌, ◌&&◌, str_eq,
  if◌then◌else◌,
}

pub record TlsConfig : Type 0 where
  pub enabled : Bool
  pub cert_file : String
  pub key_file : String
  pub auto_gen_cert : Bool

unfoldable pub new_tls_config : Bool → String → String → Bool → TlsConfig
new_tls_config enabled cert_file key_file auto_gen = record {
  enabled = enabled;
  cert_file = cert_file;
  key_file = key_file;
  auto_gen_cert = auto_gen;
}

-- `GetStats`.
unfoldable pub get_stats : TlsConfig → Bool × String × String × Bool
get_stats tc = (tc.enabled, tc.cert_file, tc.key_file, tc.auto_gen_cert)

-- The files of the disk by their paths.
abbrev pub Files : Type 0
Files = String → Option String

unfoldable pub put_file : String → String → Files → Files
put_file path content fs = λ p. if str_eq p path then some content else fs p

-- `os.Stat` and `os.IsNotExist`.
abbrev pub has_value {ℓ} : {A : Type ℓ} → Option A → Bool
has_value none = false
has_value (some _) = true

-- What makes up the certificate, apart from its constants.
pub record Template : Type 0 where
  pub serial : ℕ
  pub not_before : ℕ
  pub not_after : ℕ
  pub dns_names : List String

-- `x509.CreateCertificate`, `x509.MarshalECPrivateKey`, `pem.Encode` by block type, and
-- `tls.LoadX509KeyPair` on the contents of its two files, with `Key` and `Pair` what they handle.
pub record Library (Key Pair : Type 0) : Type 0 where
  pub create_certificate : Template → Key → Option String
  pub marshal : Key → Option String
  pub pem : String → String → String
  pub load : Option String → Option String → Option Pair

-- The draws of `ecdsa.GenerateKey` and `rand.Int`, the clock, and which files can be created and
-- written; a file that is created and cannot be written stays empty.
pub record World (Key : Type 0) : Type 0 where
  pub key : Option Key
  pub serial : Option ℕ
  pub now : ℕ
  pub can_create : String → Bool
  pub can_write : String → Bool

-- 365 days.
abbrev pub year : ℕ
year = 31_536_000_000_000_000

abbrev pub template : ℕ → ℕ → Template
template serial now = record {
  serial = serial;
  not_before = now;
  not_after = now + year;
  dns_names = "localhost" ∷ "*.replit.dev" ∷ "*.replit.app" ∷ [];
}

-- The settings returned: the versions and cipher suites by their numbers.
pub record Settings (Pair : Type 0) : Type 0 where
  pub certificate : Pair
  pub min_version : ℕ
  pub cipher_suites : List ℕ

abbrev pub settings : {Pair : Type 0} → Pair → Settings Pair
settings pair = record {
  certificate = pair;
  min_version = 0x0303;
  cipher_suites = 0xc02c ∷ 0xc030 ∷ 0xc02b ∷ 0xc02f ∷ [];
}

module _ {Key Pair : Type 0} (lib : Library Key Pair) (tc : TlsConfig) where
  open lib use {create_certificate, marshal, pem, load}
  open tc use {cert_file, key_file, auto_gen_cert}

  -- The key's file, once the certificate's is written: created empty, then filled.
  unfoldable pub write_key : World Key → Key → Files → Files × Bool
  write_key world key fs =
      if not (world.can_create key_file) then (fs, false) else elim (marshal key) [
        | none ↦ (put_file key_file "" fs, false)
        | some bytes ↦
            if not (world.can_write key_file)
            then (put_file key_file "" fs, false)
            else (put_file key_file (pem "EC PRIVATE KEY" bytes) fs, true)
      ]

  unfoldable pub write_files : World Key → Key → String → Files → Files × Bool
  write_files world key der fs =
      let rest = write_key world key (put_file cert_file (pem "CERTIFICATE" der) fs) in
      if not (world.can_create cert_file)
      then (fs, false)
      else if not (world.can_write cert_file)
      then (put_file cert_file "" fs, false)
      else rest

  -- After the draws of the key and the serial number.
  unfoldable pub generate_from : Option Key → Option ℕ → World Key → Files → Files × Bool
  generate_from none serial world fs = (fs, false)
  generate_from (some key) none world fs = (fs, false)
  generate_from (some key) (some serial) world fs =
      elim (create_certificate (template serial world.now) key) [
        | none ↦ (fs, false)
        | some der ↦ write_files world key der fs
      ]

  -- `GenerateSelfSignedCert`: the files after it, and whether it succeeded.
  unfoldable pub generate : World Key → Files → Files × Bool
  unfolding generate_from
  generate world fs = generate_from world.key world.serial world fs

  unfoldable pub load_settings : Files → Option (Settings Pair)
  load_settings fs = elim (load (fs cert_file) (fs key_file)) [
    | none ↦ none
    | some pair ↦ some (settings pair)
  ]

  -- `GetTLSConfig`.
  unfoldable pub get_tls_config : World Key → Files → Files × Option (Settings Pair)
  get_tls_config world fs =
      if auto_gen_cert && not (has_value (fs cert_file))
      then (let (fs', ok) = generate world fs in
          if ok then (fs', load_settings fs') else (fs', none))
      else (fs, load_settings fs)
