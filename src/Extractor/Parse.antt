-- ===== src/Extractor/Parse.antt =====
-- `extractor_parse` of src/extractor.c.
pub mod Limits
use hyperflux.Common.{
  ℕ, Bool, true, false, not, ◌&&◌, ◌||◌, Option, none, some, List, [], ◌∷◌, ◌++◌, leb,
  if◌then◌else◌, length, get_elem?,
}
use hyperflux.Extractor.{
  Text, same, Header, Kind, Directive, Extractor, extractor_max_matches, extractor_max_directives,
  extractor_max_headers,
}
use hyperflux.Flux.Reactivate.{modify}
use hyperflux.Extractor.Tokens.{is_blank, trim, strip_comment, next_token, lines, cut_at_equals}

abbrev pub kw_header : Text
kw_header = b'h' ∷ b'e' ∷ b'a' ∷ b'd' ∷ b'e' ∷ b'r' ∷ []

abbrev pub kw_name : Text
kw_name = b'n' ∷ b'a' ∷ b'm' ∷ b'e' ∷ []

abbrev pub kw_match : Text
kw_match = b'm' ∷ b'a' ∷ b't' ∷ b'c' ∷ b'h' ∷ []

abbrev pub kw_var : Text
kw_var = b'v' ∷ b'a' ∷ b'r' ∷ []

abbrev pub kw_list : Text
kw_list = b'l' ∷ b'i' ∷ b's' ∷ b't' ∷ []

abbrev pub kw_get : Text
kw_get = b'g' ∷ b'e' ∷ b't' ∷ []

abbrev pub kw_output : Text
kw_output = b'o' ∷ b'u' ∷ b't' ∷ b'p' ∷ b'u' ∷ b't' ∷ []

abbrev pub kw_regex : Text
kw_regex = b'r' ∷ b'e' ∷ b'g' ∷ b'e' ∷ b'x' ∷ []

abbrev pub kw_arrow : Text
kw_arrow = b'<' ∷ b'-' ∷ []

abbrev pub is_empty : Text → Bool
is_empty [] = true
is_empty (c ∷ s) = false

-- What the loop keeps: the configuration so far, and the index of `last_get`.
pub record Parsing : Type 0 where
  pub ex : Extractor
  pub last_get : Option ℕ

-- `none` for an error.
unfoldable pub add_directive : Directive → Bool → Parsing → Option Parsing
add_directive d is_get p =
    if leb extractor_max_directives (length p.ex.directives)
    then none
    else some (record {
      ex = record p.ex { directives = p.ex.directives ++ (d ∷ []) };
      last_get = if is_get then some (length p.ex.directives) else none;
    })

-- `parse_var_like`
unfoldable pub parse_var_like : Kind → Text → Option Directive
parse_var_like kind cur =
    let (name, cur1) = next_token cur in
    let (arrow, cur2) = next_token cur1 in
    let (source, cur3) = next_token cur2 in
    let (kw, cur4) = next_token cur3 in
    let ere = trim cur4 in
    if is_empty name || (not (same arrow kw_arrow) || (is_empty source || not (same kw kw_regex)))
    then none
    else if is_empty ere
    then none
    else some (record { kind = kind; name = name; source = source; arg = ere; headers = [] })

unfoldable pub parse_get : Text → Option Directive
parse_get cur =
    let (name, cur1) = next_token cur in
    let (arrow, cur2) = next_token cur1 in
    let urltpl = trim cur2 in
    if is_empty name || (not (same arrow kw_arrow) || is_empty urltpl)
    then none
    else some (record { kind = Kind.get_dir; name = name; source = []; arg = urltpl; headers = [] })

unfoldable pub parse_output : Text → Option Directive
parse_output cur =
    let tpl = trim cur in
    if is_empty tpl
    then none
    else some (record { kind = Kind.output_dir; name = []; source = []; arg = tpl; headers = [] })

-- A directive that was read is added, unless the table is full.
unfoldable pub add_parsed : Option Directive → Bool → Parsing → Option Parsing
add_parsed none is_get p = none
add_parsed (some d) is_get p = add_directive d is_get p

-- An indented header line, for the get directive at `i`.
unfoldable pub add_header : ℕ → Directive → Text × Text → Parsing → Option Parsing
add_header i d (k, v) p =
    if leb extractor_max_headers (length d.headers)
    then none
    else let h : Header = record { key = trim k; val = trim v } in
      some (record p {
        ex = record p.ex {
          directives = modify i (λ e. record e { headers = e.headers ++ (h ∷ []) }) p.ex.directives;
        };
      })

unfoldable pub header_line : Text → Parsing → Option Parsing
header_line cur p = elim p.last_get [
  | none ↦ none
  | some i ↦ elim (cut_at_equals (trim cur)) [
    | none ↦ none
    | some kv ↦ elim (get_elem? p.ex.directives i) [ none ↦ none | some d ↦ add_header i d kv p ]
  ]
]

unfoldable pub name_line : Text → Parsing → Option Parsing
name_line cur p =
    let v = trim cur in
    if is_empty v
    then none
    else some (record { ex = record p.ex { title = some v }; last_get = none })

-- `compiles` says whether `regcomp` accepts a pattern.
unfoldable pub match_line : (Text → Bool) → Text → Parsing → Option Parsing
match_line compiles cur p =
    let v = trim cur in
    if is_empty v
    then none
    else if leb extractor_max_matches (length p.ex.matches)
    then none
    else if not (compiles v)
    then none
    else some (record { ex = record p.ex { matches = p.ex.matches ++ (v ∷ []) }; last_get = none })

-- The chain of tests on the keyword.
unfoldable pub parse_keyword : (Text → Bool) → Text → Text → Parsing → Option Parsing
parse_keyword compiles kw cur p =
    if same kw kw_name
    then name_line cur p
    else if same kw kw_match
    then match_line compiles cur p
    else if same kw kw_var
    then add_parsed (parse_var_like Kind.var_dir cur) false p
    else if same kw kw_list
    then add_parsed (parse_var_like Kind.list_dir cur) false p
    else if same kw kw_get
    then add_parsed (parse_get cur) true p
    else if same kw kw_output
    then add_parsed (parse_output cur) false p
    else none

unfoldable pub is_indented : Text → Bool
is_indented [] = false
is_indented (c ∷ s) = is_blank c

-- One line.
unfoldable pub parse_line : (Text → Bool) → Text → Parsing → Option Parsing
parse_line compiles raw p =
    let (kw, cur) = next_token (strip_comment raw) in
    if is_empty kw
    then some p
    else if is_indented raw && same kw kw_header
    then header_line cur p
    else parse_keyword compiles kw cur p

unfoldable pub parse_lines : (Text → Bool) → List Text → Parsing → Option Parsing
parse_lines compiles [] p = some p
parse_lines compiles (l ∷ ls) p = elim (parse_line compiles l p) [
  | none ↦ none
  | some p' ↦ parse_lines compiles ls p'
]

unfoldable pub have_output : List Directive → Bool
have_output [] = false
have_output (d ∷ ds) =
    let rest = have_output ds in
    elim d.kind [
      | Kind.output_dir ↦ true
      | Kind.var_dir ↦ rest
      | Kind.get_dir ↦ rest
      | Kind.list_dir ↦ rest
    ]

abbrev pub empty_config : Parsing
empty_config = record {
  ex = record { title = none; matches = []; directives = [] };
  last_get = none;
}

-- The two checks at the end.
unfoldable pub accept : Extractor → Option Extractor
accept ex = elim ex.title [
  | none ↦ none
  | some name ↦ if have_output ex.directives then some ex else none
]

-- `none` for NULL.
unfoldable pub extractor_parse : (Text → Bool) → Text → Option Extractor
extractor_parse compiles text = elim (parse_lines compiles (lines text) empty_config) [
  | none ↦ none
  | some p ↦ accept p.ex
]
