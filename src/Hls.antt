-- ===== src/Hls.antt =====
-- The data of src/hls.h. The length of a segment is a floating point number there; here it is the text
-- that `strtod` reads, and their sum is left out.
pub mod Attributes
pub mod Playlist
pub mod Lines
pub mod ParseMaster
pub mod Select
pub mod Iv
pub mod ParseMedia
use hyperflux.Common.{ℕ, Bool, Option, List}
use hyperflux.Libc.{Text}
use hyperflux.Libc.Int.{ℤ}

abbrev pub hls_max_variants : ℕ
hls_max_variants = 64

abbrev pub hls_max_segments : ℕ
hls_max_segments = 100000

abbrev pub hls_aes_block : ℕ
hls_aes_block = 16

pub data Enc : Type 0 where
  enc_none : Enc
  enc_aes_128 : Enc
  enc_sample_aes : Enc

pub record Variant : Type 0 where
  pub url : Text
  pub bandwidth : ℤ
  pub width : ℤ
  pub height : ℤ
  pub audio_group : Option Text

pub record Audio : Type 0 where
  pub group_id : Option Text
  pub url : Option Text
  pub is_default : Bool

pub record Master : Type 0 where
  pub variants : List Variant
  pub audios : List Audio

-- `iv` is `none` where `have_iv` is 0.
pub record Segment : Type 0 where
  pub url : Text
  pub duration : Text
  pub enc : Enc
  pub key_url : Option Text
  pub iv : Option (List ℕ)

pub record Media : Type 0 where
  pub segments : List Segment
  pub media_sequence : ℤ
  pub enc : Enc

-- The messages of the parsers.
pub data Failure : Type 0 where
  not_m3u8 : Failure
  key_without_method : Failure
  aes_without_uri : Failure
  malformed_iv : Failure
  sample_aes_not_supported : Failure
  unsupported_method : Text → Failure
  map_not_supported : Failure
  too_many_segments : Failure
