-- ===== src/Http/Exec.antt =====
-- `http_exec` of src/http.c behind the sending: the reading of the headers, byte by byte, and the copy of
-- their first line.
pub mod Room
use hyperflux.Common.{
  ℕ, suc, ◌+◌, Bool, false, ◌&&◌, Option, none, some, List, [], ◌∷◌, ltb, leb, ◌==◌, if◌then◌else◌,
  length,
}
use hyperflux.Libc.{Text, cut_at}

-- HDR_CHUNK
abbrev pub hdr_chunk : ℕ
hdr_chunk = 512

-- The bytes before `s`, the last one first, and the length of the buffer.
pub record Headers : Type 0 where
  pub text : Text
  pub len : ℕ

-- What reading comes to: the connection is gone, a byte is written behind the buffer, or the headers.
pub data Reading : Type 0 where
  gone : Reading
  overrun : Reading
  headers : Headers → Reading

abbrev pub ends_line : Text → Bool
ends_line [] = false
ends_line (c ∷ s) = c == b'\n'

-- The byte is kept, and the buffer grows if it is found too short.
unfoldable pub keep_byte : ℕ → Headers → Headers
keep_byte c h = record {
  text = c ∷ h.text;
  len = if ltb (suc (length h.text) + 10) h.len then h.len + hdr_chunk else h.len;
}

-- The bytes are those that `tcp_read` gives.
unfoldable pub read_headers : List ℕ → Headers → Reading
read_headers [] h = gone
read_headers (c ∷ bytes) h =
    let next = read_headers bytes (keep_byte c h) in
    let same_place = read_headers bytes h in
    if leb h.len (length h.text)
    then overrun
    else if c == b'\r'
    then same_place
    else if c == b'\n' && ends_line h.text
    then headers h
    else next

-- The copy of the status line into the request's buffer, of `request_len` bytes with a request of
-- `reqlen` bytes in it. `none` for a write behind the buffer, and where no newline ends the line.
unfoldable pub copy_status : ℕ → ℕ → Text → Option Text
copy_status request_len reqlen text = elim (cut_at b'\n' text) [
  | none ↦ none
  | some p ↦
      let reslen = suc (length p.0) in
      let len = if ltb request_len reqlen then reslen else request_len in
      if ltb len reslen then none else some p.0
]
