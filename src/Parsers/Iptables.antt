-- ===== src/Parsers/Iptables.antt =====
-- sentinel_home/parsers/iptables.py: firewall lines. The two regular expressions are functions that
-- walk the text once; word characters are those of ASCII.
pub mod Lines
use Prim.Native.Char.{code}
use Prim.Native.String.{[], ◌∷◌, ◌++◌ as str_append}
use sentinel_home.Prelude.{
  joined, ℕ, zero, suc, String, Bool, true, false, not, ◌&&◌, ◌||◌, Option, none, some, List, [],
  ◌∷◌, any, contains, truthy, upper, has_prefix, has_substring, is_space, strip_left, ◌==◌, nat_eq,
  string_eq, if◌then◌else◌,
}
use sentinel_home.Prelude.Dict.{Dict, lookup, insert}
use sentinel_home.Models.{Value, get_or}
use sentinel_home.Agent.Reading.{is_word}
use sentinel_home.Parsers.{Parsed}

-- the groups of `_FW_RULE_RE`, with "" for a missing description
pub record Match : Type 0 where
  pub chain : String
  pub descr : String
  pub fields : String

-- what stands before the first `mark` and after it
unfoldable pub cut_at : ℕ → String → Option (String × String)
cut_at mark [] = none
cut_at mark (c ∷ s) =
    let rest = cut_at mark s in
    if code c == mark
    then some ([], s)
    else elim rest [ none ↦ none | some (before, after) ↦ some (c ∷ before, after) ]

abbrev pub starts_blank : String → Bool
starts_blank [] = false
starts_blank (c ∷ s) = is_space c

-- `.*`
unfoldable pub to_line_end : String → String
to_line_end [] = []
to_line_end (c ∷ s) = let rest = to_line_end s in if code c == 10 then [] else c ∷ rest

abbrev skip : ℕ → String → String
skip zero s = s
skip (suc n) [] = []
skip (suc n) (c ∷ s) = skip n s

abbrev plain : String → String → Match
plain chain body = record { chain = chain; descr = ""; fields = to_line_end body }

-- the optional group `DESCR="..."` and the fields
unfoldable pub match_body : String → String → Match
unfolding cut_at to_line_end
match_body chain body =
    if has_prefix body "DESCR=\""
    then elim (cut_at b'"' (skip 7 body)) [
      | none ↦ plain chain body
      | some (descr, rest) ↦
          if starts_blank rest
          then record {
            chain = chain;
            descr = descr;
            fields = to_line_end (strip_left is_space rest);
          }
          else plain chain body
    ]
    else plain chain body

-- a match that starts with the bracket before `s`
unfoldable pub match_at : String → Option Match
unfolding match_body
match_at s = elim (cut_at b']' s) [
  | none ↦ none
  | some (chain, rest) ↦
      if truthy chain && starts_blank rest
      then some (match_body chain (strip_left is_space rest))
      else none
]

abbrev pub or_match : Option Match → Option Match → Option Match
or_match none other = other
or_match (some m) other = some m

-- `_FW_RULE_RE.search`
unfoldable pub search_rule : String → Option Match
unfolding match_at
search_rule [] = none
search_rule (c ∷ s) =
    let later = search_rule s in if code c == b'[' then or_match (match_at s) later else later

abbrev pub emit : String → String → List (String × String) → List (String × String)
emit key value rest = if truthy value then (key, value) ∷ rest else rest

-- `_FW_FIELD_RE.findall`, with the run of word characters so far, or with the key whose value is being
-- read and the value so far
unfoldable pub find_fields : Option String → String → String → List (String × String)
find_fields none word [] = []
find_fields (some key) value [] = emit key value []
find_fields none word (c ∷ s) = elim (is_word c) [
  | true ↦ find_fields none (joined word (c ∷ [])) s
  | false ↦ elim ((code c == b'=') && truthy word) [
    | true ↦ find_fields (some word) [] s
    | false ↦ find_fields none [] s
  ]
]
find_fields (some key) value (c ∷ s) = elim (is_space c) [
  | true ↦ emit key value (find_fields none [] s)
  | false ↦ find_fields (some key) (joined value (c ∷ [])) s
]

-- `dict(pairs)`
unfoldable pub dict_of : List (String × String) → Dict String String → Dict String String
dict_of [] d = d
dict_of ((k, v) ∷ pairs) d = dict_of pairs (insert k v d)

abbrev noise_ports : List String
noise_ports = "5353" ∷ "10001" ∷ "1900" ∷ "67" ∷ "68" ∷ []

abbrev has_any : String → List String → Bool
has_any text = any (has_substring text)

-- `fields.get(key, "")`
abbrev field : String → Dict String String → String
field key fields = get_or "" (lookup key fields)

abbrev has_field : String → Dict String String → Bool
has_field key fields = elim (lookup key fields) [ none ↦ false | some v ↦ true ]

-- the fields of the result without those of the packet that have no name of their own
unfoldable pub base_fields : Match → Dict String String → Dict String Value
base_fields m fields =
    ("chain", Value.text m.chain)
    ∷ ("descr", Value.text m.descr)
    ∷ ("src", Value.text (field "SRC" fields))
    ∷ ("dst", Value.text (field "DST" fields))
    ∷ ("proto", Value.text (field "PROTO" fields))
    ∷ ("spt", Value.text (field "SPT" fields))
    ∷ ("dpt", Value.text (field "DPT" fields))
    ∷ ("iface_in", Value.text (field "IN" fields))
    ∷ ("iface_out", Value.text (field "OUT" fields))
    ∷ []

abbrev is_named : String → Bool
is_named key = contains key ("SRC" ∷ "DST" ∷ "PROTO" ∷ "SPT" ∷ "DPT" ∷ "IN" ∷ "OUT" ∷ [])

unfoldable pub with_others : Dict String String → Dict String Value → Dict String Value
with_others [] all_fields = all_fields
with_others ((k, v) ∷ fields) all_fields =
    with_others fields (if is_named k then all_fields else insert k (Value.text v) all_fields)

-- `f"{src}:{spt} -> {dst}:{dpt} ({proto})"`
unfoldable pub packet_text : Dict String String → String
packet_text fields = str_append (field "SRC" fields) (
    str_append ":" (
      str_append (field "SPT" fields) (
        str_append " -> " (
          str_append (field "DST" fields) (
            str_append ":" (
              str_append (field "DPT" fields)
                (str_append " (" (str_append (field "PROTO" fields) ")"))))))))

unfoldable pub in_chain : Match → String
in_chain m = str_append " [" (str_append m.chain "]")

abbrev pub router_result : String → String → Dict String Value → Parsed
router_result event_type message fields = record {
  result = record {
    event_type = event_type;
    severity = "info";
    category = "network";
    message = message;
    fields = fields;
  };
  device_type_hint = some "router";
}

unfoldable pub is_block : Match → Bool
is_block m = has_any (upper m.chain) ("-D-" ∷ "DROP" ∷ "BLOCK" ∷ "REJECT" ∷ [])

unfoldable pub is_wan : Match → Dict String String → Bool
is_wan m fields =
    has_any (upper m.chain) ("WAN" ∷ "FWD" ∷ "INPUT" ∷ []) && not (field "IN" fields == "br0")

unfoldable pub is_noise : Dict String String → Bool
is_noise fields =
    contains (field "SPT" fields) noise_ports && contains (field "DPT" fields) noise_ports

-- multicast or broadcast
unfoldable pub is_group : Dict String String → Bool
is_group fields =
    has_prefix (field "DST" fields) "224."
    || (has_prefix (field "DST" fields) "ff" || field "DST" fields == "255.255.255.255")

unfoldable pub classify : Match → Dict String String → Option Parsed
unfolding base_fields with_others packet_text in_chain is_block is_wan is_noise is_group
classify m fields =
    let base = base_fields m fields in
    let text = packet_text fields in
    if not (has_field "SRC" fields || has_field "DST" fields) || is_noise fields
    then none
    else if is_block m && is_wan m fields
    then some
        (router_result "fw_wan_block" (str_append "WAN block: " text) (with_others fields base))
    else if is_block m
    then some (router_result "fw_block" (str_append "Block: " (str_append text (in_chain m))) base)
    else if is_group fields
    then none
    else some
        (router_result "fw_lan_traffic" (str_append "LAN: " (str_append text (in_chain m))) base)

unfoldable pub try_parse : String → String → Option Parsed
unfolding search_rule find_fields dict_of classify
try_parse program message = elim (search_rule message) [
  | none ↦ none
  | some m ↦ classify m (dict_of (find_fields none [] m.fields) [])
]
