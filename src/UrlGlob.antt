-- ===== src/UrlGlob.antt =====
-- src/url_glob.c: ranges and lists in a URL are expanded to all the URLs that they stand for.
-- Text is a list of bytes with no NUL among them.
pub mod Number
pub mod Pattern
pub mod Scan
pub mod Expand
use hyperflux.Common.{ℕ, List}

abbrev pub Bytes : Type 0
Bytes = List ℕ

-- URL_GLOB_MAX_URLS
abbrev pub url_glob_max_urls : ℕ
url_glob_max_urls = 10000

-- What a builder says of a group: it is no pattern (0), an error (-1), or these alternatives (1).
pub data Built : Type 0 where
  literal error : Built
  alts : List Bytes → Built
