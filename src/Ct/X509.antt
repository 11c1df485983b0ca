-- ===== src/Ct/X509.antt =====
-- x509/: what the root package relies on of it, and of crypto/sha256. A parameter of the model.
use certificate_transparency.Prelude.{ℕ, Bool, Option, List}
use certificate_transparency.Prelude.Int.{ℤ}
use certificate_transparency.Prelude.Text.{Text}

-- An extension, with its object identifier in dotted form.
pub record Extension : Type 0 where
  pub id : Text
  pub critical : Bool
  pub value : List ℕ

-- The fields of x509.Certificate that are read here.
pub record Certificate : Type 0 where
  pub raw : List ℕ
  pub raw_tbs_certificate : List ℕ
  pub raw_subject_public_key_info : List ℕ
  pub ext_key_usage : List ℕ
  pub not_after : ℤ
  pub is_ca : Bool
  pub extensions : List Extension

-- What a parser returns: an error that IsFatal calls fatal, or a certificate and whether a
-- non-fatal error came with it.
pub data Parsed : Type 0 where
  fatal : Parsed
  parsed : Certificate → Bool → Parsed

-- An error of BuildPrecertTBS or RemoveSCTList is `none`.
pub record X509 : Type 0 where
  pub parse_certificate : List ℕ → Parsed
  pub parse_tbs_certificate : List ℕ → Parsed
  pub build_precert_tbs : List ℕ → Option Certificate → Option (List ℕ)
  pub remove_sct_list : List ℕ → Option (List ℕ)
  pub sum256 : List ℕ → List ℕ

-- ExtKeyUsageCertificateTransparency.
abbrev pub certificate_transparency_usage : ℕ
certificate_transparency_usage = 14
