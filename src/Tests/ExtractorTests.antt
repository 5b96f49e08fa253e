-- ===== src/Tests/ExtractorTests.antt =====
-- The extractor's theorems at concrete inputs.
use hyperflux.Common.{
  ◌≤◌, ◌≡◌, refl, ◌≢◌, Bool, true, false, none, some, List, [], ◌∷◌, arith, ◌==◌, if◌then◌else◌,
  length,
}
use hyperflux.Extractor.{Text, same, Kind, Directive, Extractor}
use hyperflux.Extractor.Store.{Store, store_get, replaced, store_set}
use hyperflux.Extractor.Interpolate.{interpolate, interpolate_from, buf_append, run_to}
use hyperflux.Extractor.Interpolate.Template.{
  Template, last, hole, written, contains, IsPlain, meaning, bounded, interpolate-written,
}
use hyperflux.Extractor.Resolve.{
  find_scheme, unescape, resolve_url, resolve_parts, join_path, url_authority_len, authority_end,
  path_end, last_slash,
}
use hyperflux.Extractor.Tokens.{
  trim_start, trim_end, trim, strip_from, strip_comment, blanks_off, word, next_token, onto_line,
  lines,
}
use hyperflux.Extractor.Parse.{
  add_directive, parse_output, add_parsed, name_line, parse_keyword, is_indented, parse_line,
  parse_lines, have_output, accept, extractor_parse,
}
use hyperflux.Extractor.Parse.Limits.{Fits, extractor_parse-Fits}
use hyperflux.Extractor.Run.{Regex, Compiler, extractor_run, url_var}
use hyperflux.Extractor.Run.Episode.{pipeline, NoList, start_store, extractor_run-series}
use hyperflux.Extractor.Series.{
  extractor_list_episodes, list_from, run_list, capture_items, regex_capture_all, capture_from,
  keep_item, past_match, resolve_dedup_list, dedup_from, is_among, base_of,
}
use hyperflux.Extractor.Series.Bounds.{extractor_list_episodes_bound}
use hyperflux.Extractor.Episodes.{
  parse_episodes, select_from, parse_range, number_within, parse_number, digits_from, skip_blanks,
  range_end, mark, selected,
}
use hyperflux.Extractor.Episodes.Ranges.{number, AllDigits, Range, one, between, IsNumeral, IsRange}
use hyperflux.Extractor.Episodes.Written.{
  table, covered, spec_text, AreRanges, parse_episodes-spec_text,
}
use hyperflux.Extractor.Series.Distinct.{IsDistinct}

abbrev id_text : Text
id_text = b'i' ∷ b'd' ∷ []

abbrev two_vars : Store
two_vars =
    record { name = id_text; value = b'7' ∷ [] }
    ∷ record { name = b'q' ∷ []; value = b'h' ∷ b'd' ∷ [] }
    ∷ []

abbrev two_vars' : Store
two_vars' =
    record { name = id_text; value = b'8' ∷ [] }
    ∷ record { name = b'q' ∷ []; value = b'h' ∷ b'd' ∷ [] }
    ∷ []

two_vars-set : store_set two_vars id_text (b'8' ∷ []) ≡ some two_vars'
unfolding store_set replaced same
two_vars-set = refl

-- v{id}.mp
abbrev a_template : Template
a_template = hole (b'v' ∷ []) id_text (last (b'.' ∷ b'm' ∷ b'p' ∷ []))

a_template-IsPlain : IsPlain a_template
unfolding IsPlain contains
a_template-IsPlain = (refl, (refl, refl))

interpolate-written_example :
    interpolate (written a_template) two_vars ≡ bounded (meaning two_vars a_template)
interpolate-written_example = interpolate-written a_template two_vars a_template-IsPlain

-- a://h/x
abbrev a_page : Text
a_page = b'a' ∷ b':' ∷ b'/' ∷ b'/' ∷ b'h' ∷ b'/' ∷ b'x' ∷ []

abbrev an_output : Directive
an_output = record { kind = Kind.output_dir; name = []; source = []; arg = b'y' ∷ []; headers = [] }

abbrev a_list : Directive
a_list = record {
  kind = Kind.list_dir;
  name = id_text;
  source = id_text;
  arg = id_text;
  headers = [];
}

abbrev a_series : Extractor
a_series = record { title = some id_text; matches = []; directives = a_list ∷ an_output ∷ [] }

abbrev no_regex : Compiler
no_regex = λ ere. none

nothing-NoList : NoList []
unfolding NoList
nothing-NoList = tt

extractor_run-series_example :
    extractor_run no_regex none a_series a_page
    ≡ pipeline no_regex none 1 (an_output ∷ []) (start_store a_page)
extractor_run-series_example =
    extractor_run-series no_regex none a_series a_page [] (an_output ∷ []) a_list refl
      nothing-NoList refl

abbrev a_config : Extractor
a_config = record { title = some (b'x' ∷ []); matches = []; directives = an_output ∷ [] }

one_output-NoList : NoList (an_output ∷ [])
unfolding NoList
one_output-NoList = (λ e. ground (arith, e), tt)

abbrev three_items : List Text
three_items = id_text ∷ a_page ∷ id_text ∷ []

-- "name x" and "output y" on two lines
abbrev a_text : Text
a_text =
    b'n' ∷ b'a' ∷ b'm' ∷ b'e' ∷ b' ' ∷ b'x' ∷ b'\n' ∷ b'o' ∷ b'u' ∷ b't' ∷ b'p' ∷ b'u' ∷ b't' ∷ b' '
    ∷ b'y' ∷ []

a_text-parsed : extractor_parse (λ v. true) a_text ≡ some a_config
unfolding extractor_parse accept have_output parse_lines parse_line is_indented parse_keyword
    name_line add_parsed parse_output add_directive lines onto_line next_token word blanks_off
    strip_comment strip_from trim trim_end trim_start same
a_text-parsed = refl

extractor_parse-Fits_example :
    (a_config.title ≢ none) × ((have_output a_config.directives ≡ true) × Fits a_config)
extractor_parse-Fits_example = extractor_parse-Fits (λ v. true) a_text a_config a_text-parsed

-- One match, at the start of a text of seven bytes.
abbrev one_match : Compiler
one_match = λ ere. some (record {
  nsub = 1;
  exec = λ p. if length p == 7 then some (record { end = 4; group = some (0, 2) }) else none;
})

abbrev listing : Extractor
listing = record {
  title = some id_text;
  matches = [];
  directives =
      record { kind = Kind.list_dir; name = id_text; source = url_var; arg = id_text; headers = [] }
      ∷ an_output
      ∷ [];
}

-- a://h/a:
abbrev listed : List Text
listed = (b'a' ∷ b':' ∷ b'/' ∷ b'/' ∷ b'h' ∷ b'/' ∷ b'a' ∷ b':' ∷ []) ∷ []

listing-listed : extractor_list_episodes one_match none listing a_page ≡ some listed
unfolding extractor_list_episodes list_from run_list capture_items regex_capture_all capture_from
    keep_item past_match resolve_dedup_list dedup_from is_among base_of store_get store_set replaced
    same interpolate interpolate_from buf_append run_to resolve_url resolve_parts join_path unescape
    find_scheme url_authority_len authority_end path_end last_slash
listing-listed = refl

extractor_list_episodes_bound_example : (length listed ≤ 2000) × IsDistinct listed
extractor_list_episodes_bound_example =
    extractor_list_episodes_bound one_match none listing a_page listed listing-listed

-- 1,3
abbrev a_spec : Text
a_spec = b'1' ∷ b',' ∷ b'3' ∷ []

abbrev a_selection : List Bool
a_selection = true ∷ false ∷ true ∷ false ∷ []

a_spec-selection : parse_episodes a_spec 4 ≡ some (a_selection, 2)
unfolding parse_episodes select_from parse_range number_within parse_number digits_from skip_blanks
    range_end mark selected
a_spec-selection = refl

-- 1,3-4
abbrev two_ranges : List Range
two_ranges = one (b'1' ∷ []) ∷ between (b'3' ∷ []) (b'4' ∷ []) ∷ []

two_ranges-AreRanges : AreRanges 5 two_ranges
unfolding AreRanges IsRange IsNumeral AllDigits number
two_ranges-AreRanges = (
  ((omega arith, (refl, tt)), (omega arith, omega arith)),
  (
    (
      ((omega arith, (refl, tt)), (omega arith, (refl, tt))),
      (omega arith, (omega arith, omega arith)),
    ),
    tt,
  ),
)

parse_episodes-spec_text_example :
    parse_episodes (spec_text two_ranges) 5
    ≡ some (table (covered two_ranges) 0 5, selected (table (covered two_ranges) 0 5))
parse_episodes-spec_text_example =
    parse_episodes-spec_text 5 (one (b'1' ∷ [])) (between (b'3' ∷ []) (b'4' ∷ []) ∷ [])
      two_ranges-AreRanges (omega arith)

abbrev two_items : Regex
two_items = record { nsub = 1; exec = λ p. some (record { end = 0; group = some (0, 1) }) }

-- {id}{
abbrev open_brace : Text
open_brace = b'{' ∷ b'i' ∷ b'd' ∷ b'}' ∷ b'{' ∷ []

open_brace-interpolated : interpolate open_brace two_vars ≡ some (b'7' ∷ b'{' ∷ [])
unfolding interpolate interpolate_from buf_append run_to store_get same
open_brace-interpolated = refl
