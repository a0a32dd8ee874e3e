-- ===== src/Pagination/Tests.antt =====
-- A list of core/pagination.ts in two pages, under an encoding that covers its cursors.
use avito_mcp.Prelude.{
  ℕ, String, ◌≡◌, refl, Option, none, some, List, [], ◌∷◌, arith, zero, suc, ◌==◌, if◌then◌else◌,
}
use avito_mcp.Json.{Json, obj, has_property, no_more, num, str}
use avito_mcp.Pagination.{
  absent, Codec, decode_cursor, all_in_alphabet, page_boundaries, boundaries_from,
}
use avito_mcp.Pagination.Walk.{walk, ReadsBack, walk_complete}

abbrev cursor_json : ℕ → Json
cursor_json o = obj (
    has_property "v" (num 1) (
      has_property "m" (str "tools/list")
        (has_property "o" (num o) (has_property "f" (str "f0") no_more))))

abbrev parse_short : String → Option Json
parse_short raw =
    if raw == "A"
    then some (cursor_json 0)
    else if raw == "B"
    then some (cursor_json 1)
    else if raw == "C"
    then some (cursor_json 2)
    else none

abbrev print_offset : ℕ → String
print_offset zero = "A"
print_offset (suc zero) = "B"
print_offset (suc (suc n)) = "C"

abbrev short_codec : Codec ℕ
short_codec = record {
  parse = parse_short;
  print = λ p. print_offset p.offset;
  digest = λ items. "f0";
  size = λ n. n;
}

abbrev tools : List ℕ
tools = 40000 ∷ 30000 ∷ []

two_pages : page_boundaries (40000 ∷ 30000 ∷ []) ≡ 0 ∷ 1 ∷ []
unfolding page_boundaries boundaries_from
two_pages = refl

reads_back : ReadsBack short_codec "tools/list" tools
unfolding decode_cursor all_in_alphabet
reads_back zero h = refl
reads_back (suc zero) h = refl
reads_back (suc (suc zero)) h = refl
reads_back (suc (suc (suc n))) h = ground (arith, h)

walk_complete_example : walk short_codec "tools/list" tools 3 absent ≡ some tools
walk_complete_example = walk_complete short_codec "tools/list" tools 3 reads_back (omega arith)
