-- ===== src/MirrorScan.antt =====
-- The candidates of src/scan.c: which references of a page are media, and the list that they make.
pub mod Classify
pub mod Table
pub mod Sort
use hyperflux.Common.{ℕ, Bool, Option, List}
use hyperflux.Libc.{Text}
use hyperflux.Libc.Int.{ℤ}

pub data Kind : Type 0 where
  file : Kind
  hls : Kind
  gdrive : Kind

pub data Context : Type 0 where
  unknown : Context
  player : Context
  ad : Context

pub record Step : Type 0 where
  ere : Text
  sample : Option Text

-- `Double` stands for the floating-point numbers.
pub record Candidate (Double : Type 0) : Type 0 where
  pub url : Text
  pub raw_ref : Text
  pub host : Option Text
  pub kind : Kind
  pub context : Context
  pub duration : Double
  pub size : ℤ
  pub width : ℤ
  pub height : ℤ
  pub bandwidth : ℤ
  pub count : ℕ
  pub ad_host : Bool
  pub score : Double
  pub depth : ℕ
  pub chain : List Step
  pub param_token : Option Text
  pub media_base : Option Text
  pub gdrive_filed : Bool
