-- ===== src/Http.antt =====
-- src/http.c: the headers of a reply, the names in a URL, the reading of a reply, and the proxy.
pub mod Header
pub mod Decode
pub mod Exec
pub mod Proxy
