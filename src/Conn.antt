-- ===== src/Conn.antt =====
-- The address part of `conn_t`, of src/conn.h.
pub mod Set
pub mod Url
pub mod Redirect
use hyperflux.Common.{ℕ, Bool, true, false}
use hyperflux.Libc.{Text}
use hyperflux.Libc.Int.{ℤ}

-- MAX_STRING
abbrev pub max_string : ℕ
max_string = 1024

pub data Proto : Type 0 where
  proto_ftp : Proto
  proto_ftps : Proto
  proto_http : Proto
  proto_https : Proto

-- PROTO_IS_FTP
unfoldable pub proto_is_ftp : Proto → Bool
proto_is_ftp proto_ftp = true
proto_is_ftp proto_ftps = true
proto_is_ftp proto_http = false
proto_is_ftp proto_https = false

unfoldable pub proto_port : Proto → ℕ
proto_port proto_ftp = 21
proto_port proto_ftps = 990
proto_port proto_http = 80
proto_port proto_https = 443

pub record Address : Type 0 where
  pub proto : Proto
  pub port : ℤ
  pub host : Text
  pub dir : Text
  pub file : Text
  pub user : Text
  pub pass : Text
