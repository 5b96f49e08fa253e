-- ===== src/Extractor.antt =====
-- The media extractor, src/extractor.c and src/extractor.h: a small configuration language whose
-- programs turn the address of a page into the address of a media file.
pub mod Store
pub mod Interpolate
pub mod Resolve
pub mod Tokens
pub mod Parse
pub mod Run
pub mod Series
pub mod Episodes
use hyperflux.Common.{ℕ, Option, List}
unfoldable pub use hyperflux.Libc.{Text, same}
pub use hyperflux.Libc.{same_refl, same_eq}

pub record Header : Type 0 where
  pub key : Text
  pub val : Text

pub data Kind : Type 0 where
  var_dir get_dir output_dir list_dir : Kind

-- A name or a source that is NULL is empty here: it is not read.
pub record Directive : Type 0 where
  pub kind : Kind
  pub name : Text
  pub source : Text
  pub arg : Text
  pub headers : List Header

-- `extractor_t`. Its `path` only stands in messages.
pub record Extractor : Type 0 where
  pub title : Option Text
  pub matches : List Text
  pub directives : List Directive

abbrev pub extractor_max_matches : ℕ
extractor_max_matches = 16

abbrev pub extractor_max_directives : ℕ
extractor_max_directives = 64

abbrev pub extractor_max_vars : ℕ
extractor_max_vars = 64

abbrev pub extractor_max_headers : ℕ
extractor_max_headers = 16

abbrev pub extractor_max_episodes : ℕ
extractor_max_episodes = 2000
