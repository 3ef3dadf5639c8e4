-- ===== src/Rules/Facts.antt =====
-- The input of the rules: what a push and the repository hold. Ids, refs and keys are texts.
use git_ents.Base.{Bytes, List, Option}

pub data Role : Type 0 where
  admin member : Role

pub record Facts : Type 0 where
  pub ref_update : List (Bytes × Option Bytes × Bytes)
  pub parent : List (Bytes × Bytes)
  pub signed_by : List (Bytes × Bytes)
  pub members : List (Bytes × Role)
  pub anchor : List (Bytes × Bytes)
  pub context : List (Bytes × Bytes)
  pub object_exists : List Bytes
