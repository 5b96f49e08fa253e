-- ===== src/Lib.antt =====
-- Verification of Hyperflux, a download accelerator in C.
--
-- A download (src/flux.c) fetches one file over several connections at once. `flux_divide` gives each
-- connection a range of the file, `flux_do` runs one round: it reads from the connections, writes
-- what they deliver, restarts those that broke off, hands a range that is left over to a connection
-- that has finished (`reactivate_connection`), holds the speed limit, and now and then writes the
-- ranges to a state file, from which `flux_open` resumes. src/text.c calls `flux_do` until the
-- download is done. Before that, src/url_glob.c expands one argument to many URLs, and
-- src/extractor.c turns the address of a page into the address of a media file by a small
-- configuration language. `conn_set` of src/conn.c takes the address of a server out of a URL and
-- `conn_info` asks the server about the file, along its redirects, with the headers that src/http.c reads;
-- src/dn-match.c compares the server's name with its certificate. src/hls.c fetches media that come in
-- segments listed in a playlist.
--
-- The files, and the code they model:
--   Common: lists over the native numbers, Boolean tests, and what they prove.
--   Libc: C strings, signed integers, and the functions of the C library that the source calls on them;
--     Libc.Cuts: what `strchr`, `strcspn` and the like find in a text.
--   Flux: `conn_t`, `flux_t` and `conf_t`, of src/conn.h, src/flux.h and src/conf.h.
--   Flux.Segments: what a list of ranges covers and how many bytes it has left.
--   Flux.Divide: `flux_divide`. Flux.Reactivate: `reactivate_connection`.
--   Flux.StateFile: `save_state` and the part of `flux_open` that reads. Flux.Open: `flux_open`.
--   Flux.Loop.Throttle, .Handle and .Round: the speed limit, the reading loop and the whole of
--     `flux_do`. Flux.Loop.Round.Run: the loop of `download_one` in src/text.c.
--     Flux.Loop.Progress: rounds in which the download goes on.
--   Flux.Start: `flux_start`, and what `setup_thread` does to its connection.
--   UrlGlob.Number, .Pattern, .Scan and .Expand: src/url_glob.c, from the numbers up to `url_glob`.
--   Extractor.Store: `store_get` and `store_set`. Extractor.Interpolate: `interpolate`.
--     Extractor.Resolve: `extractor_resolve_url`. Extractor.Tokens and .Parse: `extractor_parse`.
--     Extractor.Run: `extractor_run` and `extractor_matches`. Extractor.Series:
--     `extractor_list_episodes`. Extractor.Episodes: `extractor_parse_episodes`. All these are in
--     src/extractor.c.
--   Hls: the types of src/hls.h. Hls.Attributes: `attr_get`. Hls.Playlist: `hls_trim` and the tests on a
--     URL and a text. Hls.ParseMaster: `hls_parse_master`. Hls.ParseMedia: `hls_parse_media`. Hls.Select:
--     `hls_select_variant`. Hls.Iv: `hls_iv_from_sequence` and `hls_parse_iv`. All these are in src/hls.c.
--   Http.Header: `http_header` and the sizes in headers. Http.Decode: `http_decode`. Http.Exec: what
--     `http_exec` does with a reply. Http.Proxy: `http_fetch_proxy`. All these are in src/http.c.
--   Conn: the address in `conn_t` of src/conn.h. Conn.Set: `conn_set`. Conn.Url: `conn_url`.
--     Conn.Redirect: `urlseq_check_loop` and `conn_info`. Http.Proxy also has the choice of a proxy in
--     `conn_init`. These are in src/conn.c.
--   MirrorScan: the candidates of src/scan.h. MirrorScan.Classify: `url_host`, `scan_is_ad_host` and
--     `classify_url_ext`. MirrorScan.Table: `add_candidate`. MirrorScan.Sort: `sort_candidates`. These
--     are in src/scan.c, where the scores are floating point: the sort takes the test on them as an
--     argument.
--   DnMatch: `dn_match` of src/dn-match.c. Abuf: `abuf_strcat` of src/abuf.c.
--   Tui.Window: `tui_visible_start`, Tui.Collect: `tui_collect`, and Tui.Spec: `tui_apply_spec`, of
--     src/tui.c. The reading of blanks and the marks of a range are those of Extractor.Episodes.
--   Tests: runs on concrete inputs.
--
-- How the code is modelled. A function by clauses stands for each C function or for a named part of
-- one; a state is a record that is passed on; `none` stands for an error return. A file offset is a
-- natural number: where the code could make one negative, the model tests for it, and a `write` of a
-- negative number of bytes is an outcome of its own. Bytes are numbers below 256. What the
-- environment does in a round (clock, select, what each read delivers, how much each write takes,
-- whether a thread can be started) is an argument, a `Round`. Regular expressions and the fetching
-- of pages are arguments of the extractor's functions; the network, `is_ipv6_addr` (inet_pton) and the
-- hash of a URL are arguments of `conn_info`, and so are whether each request goes over a proxy and the
-- length of the headers' buffer after it. A C string is the list of its bytes before the NUL, the
-- empty one also where the code has NULL for no text and makes no difference. An `int` is cut to 32
-- bits. TLS is taken to be compiled in (HAVE_SSL).
--
-- Fuel: `scan` of url_glob has one step for each byte of the pattern, and `interpolate`,
-- `select_from` and `capture_from` have one more step than their text has bytes; each pass of those
-- loops takes a byte or more. The same holds of the loops of `attr_get`, `tui_apply_spec`,
-- `http_header` and the two over `no_proxy`. `conn_info` has one round more than redirects are
-- allowed. `decimal_digits` has 20 steps, and a long has at most 19 digits.
--
-- Not modelled: running out of memory, the texts of the messages, sockets, TLS, FTP and the sending of
-- requests, the rest of the terminal interface, the fetching, the collection passes and the scores of
-- the scanner for mirrors, the sum of the floating-point lengths in a playlist and the decryption of
-- segments.
--
-- Threads: a setup thread holds the lock of its connection from its start to its end, so a `Round` says
-- which locks are held and whether a thread can be started, and in a `Run` a thread's end, with all that
-- `setup_thread` does to the connection, is a step between two rounds. Whether `conn_setup` and
-- `conn_exec` succeed, and the clock behind them, are the step's argument.
pub mod Common
pub mod Libc
pub mod Flux
pub mod UrlGlob
pub mod Extractor
pub mod Hls
pub mod Http
pub mod Conn
pub mod DnMatch
pub mod Abuf
pub mod MirrorScan
pub mod Tui
pub mod Tests
