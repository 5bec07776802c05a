-- ===== src/RuleParser.antt =====
-- tracker_blocker/rule_parser.h and rule_parser.cc: filter-list lines and their options.
pub mod Mask
pub mod Wellformed
pub mod Render
pub mod RoundTrip
pub mod DomainRule
mod Examples
use Prim.Native.Nat.{bit_and, bit_or}
use thorium_frugal.Base.{
  ℕ, zero, suc, ◌+◌, ◌-◌, ◌^◌, Bool, true, false, not, ◌&&◌, ◌||◌, List, [], ◌∷◌, ◌++◌, Option,
  none, some, Bytes, codes, ◌==◌, ltb, if◌then◌else◌, str_eq, any, length, take, drop,
}
use thorium_frugal.Text.{
  to_lower, find, find_if, find_last_if, substr, is_empty, starts_with, begins_with_byte,
  ends_with_byte, pop_back, getlines,
}
use thorium_frugal.Text.Decimal.{to_string}
use thorium_frugal.Text.Pieces.{split}
use thorium_frugal.Types.{
  ResourceType, sub_frame, script, image, stylesheet, font, xhr_fetch, ping_beacon, web_socket,
  media, resource_index,
}

pub data RuleType : Type 0 where
  block allow : RuleType

pub record ParsedRule : Type 0 where
  pub rule_id : Bytes
  pub rule_type : RuleType
  pub domain_pattern : Bytes
  pub path_pattern : Bytes
  pub match_subdomains : Bool
  pub require_third_party : Bool
  pub require_first_party : Bool
  pub resource_type_mask : ℕ
  pub original_rule_text : Bytes
  pub is_valid : Bool

abbrev pub match_all : ℕ
match_all = 0xFFFFFFFF

-- A rule with the member initialisers, and the text of its line.
abbrev pub initial_rule : Bytes → ParsedRule
initial_rule line = record {
  rule_id = [];
  rule_type = block;
  domain_pattern = [];
  path_pattern = [];
  match_subdomains = true;
  require_third_party = false;
  require_first_party = false;
  resource_type_mask = match_all;
  original_rule_text = line;
  is_valid = false;
}

-- Neither of " \t\r\n".
unfoldable pub is_text_byte : ℕ → Bool
is_text_byte c = not (c == b' ' || c == 9 || c == 13 || c == 10)

unfoldable pub trim : Bytes → Bytes
trim s = elim (find_if is_text_byte s) [
  | none ↦ []
  | some first ↦ elim (find_last_if is_text_byte s) [
    | none ↦ []
    | some last ↦ substr s first (last - first + 1)
  ]
]

-- The ladder of `ParseResourceTypeMask`: the type that an option names.
unfoldable pub option_type : Bytes → Option ResourceType
option_type o =
    if str_eq o (codes "script")
    then some script
    else if str_eq o (codes "image") || str_eq o (codes "img")
    then some image
    else if str_eq o (codes "stylesheet") || str_eq o (codes "css")
    then some stylesheet
    else if str_eq o (codes "font")
    then some font
    else if str_eq o (codes "xmlhttprequest") || str_eq o (codes "xhr") || str_eq o (codes "fetch")
    then some xhr_fetch
    else if str_eq o (codes "ping") || str_eq o (codes "beacon")
    then some ping_beacon
    else if str_eq o (codes "websocket")
    then some web_socket
    else if str_eq o (codes "subdocument") || str_eq o (codes "frame")
    then some sub_frame
    else if str_eq o (codes "media")
    then some media
    else none

-- One round of its loop.
add_option : ℕ → Bytes → ℕ
add_option mask opt = elim (option_type (to_lower (trim opt))) [
  | none ↦ mask
  | some t ↦ bit_or mask (2 ^ resource_index t)
]

add_options : ℕ → List Bytes → ℕ
add_options mask [] = mask
add_options mask (opt ∷ opts) = add_options (add_option mask opt) opts

unfoldable pub parse_resource_type_mask : Bytes → ℕ
unfolding add_options add_option
parse_resource_type_mask options_str =
    let mask = add_options 0 (split options_str b',') in if mask == 0 then match_all else mask

unfoldable pub matches_resource_type : ResourceType → ℕ → Bool
matches_resource_type type mask =
    let shift = resource_index type in
    if ltb shift 32 then not (bit_and mask (2 ^ shift) == 0) else true

is_third_party_option : Bytes → Bool
is_third_party_option opt =
    let o = to_lower (trim opt) in str_eq o (codes "third-party") || str_eq o (codes "3p")

is_first_party_option : Bytes → Bool
is_first_party_option opt =
    let o = to_lower (trim opt) in str_eq o (codes "first-party") || str_eq o (codes "1p")

-- Step 4: the options, if there are any.
pub set_options : Bytes → ParsedRule → ParsedRule
unfolding is_third_party_option is_first_party_option
set_options options_str rule =
    if is_empty options_str
    then rule
    else let opts = split options_str b',' in
      record rule {
        require_third_party = any is_third_party_option opts;
        require_first_party =
            any (λ o. not (is_third_party_option o) && is_first_party_option o) opts;
        resource_type_mask = parse_resource_type_mask options_str;
      }

-- Step 5: the domain, the path and the identifier.
pub finish_rule : Bytes → Bytes → Bytes → ParsedRule → ParsedRule
finish_rule prefix domain path rule =
    let parsed = record rule { domain_pattern = domain; path_pattern = path } in
    if is_empty domain
    then parsed
    else record parsed { is_valid = true; rule_id = prefix ++ domain }

pub set_pattern : Bytes → Bytes → ParsedRule → ParsedRule
set_pattern prefix line rule = elim (find line b'/' 0) [
  | none ↦ finish_rule prefix (to_lower line) [] rule
  | some i ↦ finish_rule prefix (to_lower (take i line)) (drop i line) rule
]

-- `||` in front and `^` at the end.
pub strip_anchors : Bytes → Bytes
strip_anchors line =
    let bare = if starts_with line (codes "||") then drop 2 line else line in
    if ends_with_byte bare b'^' then pop_back bare else bare

-- Steps 3 to 5, on the line behind `@@`.
parse_pattern : Bytes → Bytes → ParsedRule → ParsedRule
parse_pattern prefix line rule = elim (find line b'$' 0) [
  | none ↦ set_pattern prefix (strip_anchors line) (set_options [] rule)
  | some i ↦ set_pattern prefix (strip_anchors (take i line)) (set_options (drop (i + 1) line) rule)
]

-- Step 1: comments, empty lines and long lines.
is_skipped : Bytes → Bool
is_skipped line =
    is_empty line
    || begins_with_byte line b'!'
    || begins_with_byte line b'#'
    || ltb 1024 (length line)

unfoldable pub parse_line : Bytes → Bytes → ParsedRule
unfolding parse_pattern strip_anchors set_pattern finish_rule set_options is_skipped
parse_line raw_line prefix =
    let line = trim raw_line in
    let rule = initial_rule line in
    if is_skipped line
    then rule
    else if starts_with line (codes "@@")
    then parse_pattern prefix (drop 2 line) (record rule { rule_type = allow })
    else parse_pattern prefix line rule

-- The loop of `ParseText`; `count` is the number of lines read.
parse_lines : ℕ → List Bytes → List ParsedRule
parse_lines count [] = []
parse_lines count (line ∷ lines) =
    let r = parse_line line (codes "rule_" ++ (to_string (count + 1) ++ codes "_")) in
    let rest = parse_lines (count + 1) lines in if r.is_valid then r ∷ rest else rest

unfoldable pub parse_text : Bytes → List ParsedRule
unfolding parse_lines
parse_text text = parse_lines 0 (getlines 10 text)
