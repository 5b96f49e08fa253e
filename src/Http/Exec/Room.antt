-- ===== src/Http/Exec/Room.antt =====
-- The room in the buffers of `http_exec`.
use hyperflux.Common.{
  ℕ, suc, ◌+◌, ◌*◌, ◌≤◌, ◌<◌, ◌≡◌, refl, ap, ◌↔◌, inl, inr, false, ◌&&◌, some, List, [], ◌∷◌, arith,
  leb, ◌==◌, Bool-cases, length,
}
use hyperflux.Libc.{Text, cut_at}
use hyperflux.Http.Exec.{
  Headers, Reading, gone, overrun, headers, hdr_chunk, ends_line, keep_byte, read_headers,
  copy_status,
}

-- The buffer has grown by one chunk for each byte that was kept.
unfoldable pub Grown : ℕ → Reading → Type 0
Grown start gone = Unit {0}
Grown start overrun = ⊥
Grown start (headers h) = h.len ≡ start + length h.text * hdr_chunk

keep_byte_len :
    (c : ℕ) (h : Headers) → length h.text + 11 < h.len → (keep_byte c h).len ≡ h.len + hdr_chunk
unfolding keep_byte
keep_byte_len c h room = ground (arith, room)

keep_byte_text : (c : ℕ) (h : Headers) → length (keep_byte c h).text ≡ suc (length h.text)
unfolding keep_byte
keep_byte_text c h = refl

read_headers-from :
    (start : ℕ) (bytes : List ℕ) (h : Headers)
    → length h.text + 11 < h.len
    → h.len ≡ start + length h.text * hdr_chunk
    → Grown start (read_headers bytes h)
unfolding read_headers Grown
read_headers-from start [] h room e = tt
read_headers-from start (c ∷ bytes) h room e =
    let fits : leb h.len (length h.text) ≡ false = ground (arith, room) in
    elim (Bool-cases (c == b'\r')) [
      | inl cr ↦ rw (fits, cr) (read_headers-from start bytes h room e)
      | inr no_cr ↦ elim (Bool-cases (c == b'\n' && ends_line h.text)) [
        | inl last ↦ rw (fits, no_cr, last) e
        | inr more ↦
            let grown = keep_byte_len c h room in
            let longer = keep_byte_text c h in
            rw (fits, no_cr, more)
              (read_headers-from start bytes (keep_byte c h) (omega (arith, grown, longer, room))
                (omega (arith, grown, longer, e)))
      ]
    ]

-- From an empty buffer of 1024 bytes, whatever the server sends, no byte of the headers is written behind
-- the buffer; and the buffer grows by 512 bytes with every byte that is kept.
pub read_headers-Grown :
    (bytes : List ℕ) (h : Headers) → h.text ≡ [] → h.len ≡ 1024 → Grown 1024 (read_headers bytes h)
read_headers-Grown bytes h empty len =
    let none_yet = ap length empty in
    read_headers-from 1024 bytes h (omega (arith, len, none_yet)) (omega (arith, len, none_yet))

-- The status line with its NUL has room in the request's buffer exactly if it is no longer than the
-- buffer: the test that is to make the buffer larger never does, since the request fits its buffer.
pub copy_status_iff :
    (request_len reqlen : ℕ) (text line rest : Text)
    → reqlen ≤ request_len
    → cut_at b'\n' text ≡ some (line, rest)
    → (copy_status request_len reqlen text ≡ some line) ↔ (length line < request_len)
unfolding copy_status
copy_status_iff request_len reqlen text line rest fits e =
    (λ h. ground (arith, h, e, fits), λ h. ground (arith, h, e, fits))
