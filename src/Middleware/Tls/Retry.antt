-- ===== src/Middleware/Tls/Retry.antt =====
-- What calls of `GetTLSConfig` in middleware/tls.go leave for the calls after them.
use poly_balance.Base.{
  ℕ, String, Bool, true, false, not, ◌&&◌, Bool-cases, ◌⊎◌, inl, inr, Option, none, some,
  Option-cases, ◌≡◌, refl, sym, ap, ◌∙◌, str_eq, str_eq_refl, then_branch, arith,
}
use poly_balance.Middleware.Tls.{
  TlsConfig, Files, put_file, has_value, template, Library, World, write_key, write_files,
  generate_from, generate, load_settings, get_tls_config,
}

-- The key's file is missing or empty.
abbrev pub NoKey : String → Files → Type 0
NoKey path fs = (fs path ≡ none) ⊎ (fs path ≡ some "")

put_file-same : (path content : String) (fs : Files) → put_file path content fs path ≡ some content
unfolding put_file
put_file-same path content fs = then_branch _ _ _ (str_eq_refl path)

put_file-other :
    (path other content : String) (fs : Files)
    → str_eq other path ≡ false
    → put_file path content fs other ≡ fs other
unfolding put_file
put_file-other path other content fs h = rw h refl

module _ {Key Pair : Type 0} (lib : Library Key Pair) (tc : TlsConfig) where
  open lib use {create_certificate, marshal, pem, load}
  open tc use {cert_file, key_file, auto_gen_cert}

  -- Success, or no key.
  abbrev Kept : Files × Bool → Type 0
  Kept r = (r.1 ≡ true) ⊎ NoKey key_file r.0

  failed_keyless : (r : Files × Bool) → Kept r → r.1 ≡ false → NoKey key_file r.0
  failed_keyless r (inl ok) failed = ground arith
  failed_keyless r (inr keyless) failed = keyless

  write_key-Kept :
      (world : World Key) (key : Key) (fs : Files)
      → NoKey key_file fs
      → Kept (write_key lib tc world key fs)
  unfolding write_key
  write_key-Kept world key fs before = elim (Bool-cases (world.can_create key_file)) [
    | inr refused ↦ rw refused (inr before)
    | inl created ↦ elim (Option-cases (marshal key)) [
      | inl bad ↦ rw (created, bad) (inr (inr (put_file-same key_file "" fs)))
      | inr (bytes, good) ↦ elim (Bool-cases (world.can_write key_file)) [
        | inr refused ↦ rw (created, good, refused) (inr (inr (put_file-same key_file "" fs)))
        | inl written ↦ rw (created, good, written) (inl refl)
      ]
    ]
  ]

  put_cert-NoKey :
      (content : String) (fs : Files)
      → str_eq key_file cert_file ≡ false
      → NoKey key_file fs
      → NoKey key_file (put_file cert_file content fs)
  put_cert-NoKey content fs apart before =
      let same = put_file-other cert_file key_file content fs apart in
      elim before [ inl missing ↦ inl (same ∙ missing) | inr empty ↦ inr (same ∙ empty) ]

  write_files-Kept :
      (world : World Key) (key : Key) (der : String) (fs : Files)
      → str_eq key_file cert_file ≡ false
      → NoKey key_file fs
      → Kept (write_files lib tc world key der fs)
  unfolding write_files
  write_files-Kept world key der fs apart before = elim (Bool-cases (world.can_create cert_file)) [
    | inr refused ↦ rw refused (inr before)
    | inl created ↦ elim (Bool-cases (world.can_write cert_file)) [
      | inr refused ↦ rw (created, refused) (inr (put_cert-NoKey "" fs apart before))
      | inl written ↦
          rw (created, written)
            (write_key-Kept world key _ (put_cert-NoKey (pem "CERTIFICATE" der) fs apart before))
    ]
  ]

  generate_from-Kept :
      (key : Option Key) (serial : Option ℕ) (world : World Key) (fs : Files)
      → str_eq key_file cert_file ≡ false
      → NoKey key_file fs
      → Kept (generate_from lib tc key serial world fs)
  unfolding generate_from
  generate_from-Kept none serial world fs apart before = inr before
  generate_from-Kept (some key) none world fs apart before = inr before
  generate_from-Kept (some key) (some serial) world fs apart before =
      elim (Option-cases (create_certificate (template serial world.now) key)) [
        | inl bad ↦ rw (bad, generate_from) (inr before)
        | inr (der, good) ↦
            rw (good, generate_from) (write_files-Kept world key der fs apart before)
      ]

  generate-Kept :
      (world : World Key) (fs : Files)
      → str_eq key_file cert_file ≡ false
      → NoKey key_file fs
      → Kept (generate lib tc world fs)
  unfolding generate
  generate-Kept world fs apart before =
      generate_from-Kept world.key world.serial world fs apart before

  -- With a certificate's file there, nothing is generated.
  get-present :
      (world : World Key) (fs : Files)
      → has_value (fs cert_file) ≡ true
      → get_tls_config lib tc world fs ≡ (fs, load_settings lib tc fs)
  unfolding get_tls_config
  get-present world fs there = elim (Bool-cases auto_gen_cert) [
    | inl auto ↦ rw (auto, there) refl
    | inr manual ↦ rw manual refl
  ]

  load-NoKey :
      (fs : Files)
      → ((cert : Option String) → load cert none ≡ none)
      → ((cert : Option String) → load cert (some "") ≡ none)
      → NoKey key_file fs
      → load_settings lib tc fs ≡ none
  unfolding load_settings
  load-NoKey fs missing empty (inl h) = rw (h, missing (fs cert_file), load_settings) refl
  load-NoKey fs missing empty (inr h) = rw (h, empty (fs cert_file), load_settings) refl

  -- What a call returns is what its files give when they are loaded.
  get-loads :
      (world : World Key) (fs : Files)
      → str_eq key_file cert_file ≡ false
      → fs key_file ≡ none
      → ((cert : Option String) → load cert none ≡ none)
      → ((cert : Option String) → load cert (some "") ≡ none)
      → get_tls_config lib tc world fs ≡ (
        (get_tls_config lib tc world fs).0,
        load_settings lib tc (get_tls_config lib tc world fs).0,
      )
  unfolding get_tls_config
  get-loads world fs apart before missing empty =
      elim (Bool-cases (auto_gen_cert && not (has_value (fs cert_file)))) [
        | inr there ↦ rw there refl
        | inl absent ↦ elim (Bool-cases (generate lib tc world fs).1) [
          | inl ok ↦ rw (absent, ok) refl
          | inr failed ↦
              let keyless =
                failed_keyless (generate lib tc world fs)
                  (generate-Kept world fs apart (inl before)) failed in
              rw (absent, failed)
                (ap (λ o. ((generate lib tc world fs).0, o))
                  (sym (load-NoKey _ missing empty keyless)))
        ]
      ]

  -- Once a call has left a certificate's file, every later call does what that call did, whether it
  -- failed or not, and changes no file: so a generation that fails at the key is never repaired. It
  -- is assumed that the two files are different, that there was no key before, and that a pair with
  -- a missing or an empty key does not load.
  pub get_tls_config-again :
      (world later : World Key) (fs : Files)
      → str_eq key_file cert_file ≡ false
      → fs key_file ≡ none
      → ((cert : Option String) → load cert none ≡ none)
      → ((cert : Option String) → load cert (some "") ≡ none)
      → has_value ((get_tls_config lib tc world fs).0 cert_file) ≡ true
      → get_tls_config lib tc later (get_tls_config lib tc world fs).0
        ≡ get_tls_config lib tc world fs
  get_tls_config-again world later fs apart before missing empty there =
      get-present later (get_tls_config lib tc world fs).0 there
      ∙ sym (get-loads world fs apart before missing empty)
