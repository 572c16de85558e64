-- ===== src/Ard/Document.antt =====
-- internal/ard/types.go and verify.go: the entries of a catalog and the checks of its report. An
-- entry's metadata and trust manifest, which nothing modelled reads, are left out.
use ardvark.Prelude.{ℕ, List, Text, codes, Bool}

-- An `int`.
pub data ℤ : Type 0 where
  pos negsuc : ℕ → ℤ

pub record Entry : Type 0 where
  pub identifier : Text
  pub display_name : Text
  pub entry_type : Text
  pub url : Text
  pub data_json : Text
  pub description : Text
  pub tags : List Text
  pub capabilities : List Text
  pub representative_queries : List Text
  pub version : Text
  pub updated_at : Text
  pub raw : Text

pub data Severity : Type 0 where
  error warning : Severity

pub record Check : Type 0 where
  pub check_id : Text
  pub severity : Severity
  pub passed : Bool
  pub message : Text
  pub subject : Text
  pub entry_index : ℤ

abbrev pub subject_catalog : Text
subject_catalog = codes "catalog"

abbrev pub entry_index_none : ℤ
entry_index_none = negsuc 0
