-- ===== src/Tests/UrlGlobTests.antt =====
-- URL expansion on small inputs.
use hyperflux.Common.{◌+◌, ◌≤◌, ◌≡◌, refl, some, List, [], ◌∷◌, map, arith, length}
use Prim.Native.Char.{code}
use Prim.Native.String.{String}
use hyperflux.UrlGlob.{Bytes, url_glob_max_urls}
use hyperflux.UrlGlob.Number.{parse_uint, parse_digits, decimal_digits, decimal, format_padded}
use hyperflux.UrlGlob.Number.Print.{parse_uint-format_padded}
use hyperflux.UrlGlob.Pattern.{
  build_items, range_count, range_items, range_item, range_value, build_pattern, build_range,
  build_parts, build_list, split_braces, split_brackets, find_dots, index_of, step_value,
  range_ends, single_letters, is_alpha, pad_width, starts_with_zero, is_some, split_commas,
  cut_front, count_commas,
}
use hyperflux.UrlGlob.Scan.{
  scan, scan_byte, add_group, add_pattern, flush, group, closing, mul_overflow,
}
use hyperflux.UrlGlob.Expand.{Item, url_glob, generate, render, patterns, captures, advance, zeros}
use hyperflux.UrlGlob.Expand.Total.{reference, url_glob-reference, url_glob_limits, AllShort}

abbrev codes : String → Bytes
codes String.[] = []
codes (String.◌∷◌ c s) = code c ∷ codes s

abbrev item : String → List String → Item
item u cs = record { url = codes u; caps = map codes cs }

abbrev host : Bytes
host = codes "h{a,b}[8-10]"

abbrev host_items : List Item
host_items =
    item "ha8" ("a" ∷ "8" ∷ [])
    ∷ item "ha9" ("a" ∷ "9" ∷ [])
    ∷ item "ha10" ("a" ∷ "10" ∷ [])
    ∷ item "hb8" ("b" ∷ "8" ∷ [])
    ∷ item "hb9" ("b" ∷ "9" ∷ [])
    ∷ item "hb10" ("b" ∷ "10" ∷ [])
    ∷ []

url_glob-host : url_glob host 100 ≡ some host_items
unfolding url_glob generate render patterns captures advance zeros scan scan_byte add_group
    add_pattern flush group closing mul_overflow build_pattern build_range build_parts build_list
    split_braces split_brackets find_dots index_of step_value range_ends single_letters is_alpha
    pad_width starts_with_zero is_some split_commas cut_front count_commas build_items range_count
    range_items range_item range_value parse_uint parse_digits format_padded decimal decimal_digits
url_glob-host = refl

-- An IPv6 literal is left alone, and so is a range that descends in brackets.
url_glob_plain :
    url_glob (codes "[::1]/[3-1]{5..4}") 100
    ≡ some (item "[::1]/[3-1]5" ("5" ∷ []) ∷ item "[::1]/[3-1]4" ("4" ∷ []) ∷ [])
unfolding url_glob generate render patterns captures advance zeros scan scan_byte add_group
    add_pattern flush group closing mul_overflow build_pattern build_range build_parts build_list
    split_braces split_brackets find_dots index_of step_value range_ends single_letters is_alpha
    pad_width starts_with_zero is_some split_commas cut_front count_commas build_items range_count
    range_items range_item range_value parse_uint parse_digits format_padded decimal decimal_digits
url_glob_plain = refl

url_glob-reference_example : url_glob host 100 ≡ reference 100 (scan (length host + 1) 1 [] host)
url_glob-reference_example = url_glob-reference host 100 (omega arith)

url_glob_limits_example : (length host_items ≤ url_glob_max_urls) × AllShort 100 host_items
url_glob_limits_example = url_glob_limits host 100 host_items url_glob-host

parse_uint-format_padded_example : parse_uint (format_padded 3 7) ≡ some 7
parse_uint-format_padded_example = parse_uint-format_padded 3 7 (omega arith) (omega arith)
