-- ===== src/Parsers/Examples.antt =====
-- The theorem about firewall lines at a concrete one, and a line through the chain of parsers.
use sentinel_home.Prelude.{
  String, ◌≡◌, refl, none, some, List, [], ◌∷◌, Option, decimal, has_prefix, has_substring, upper,
  is_space, strip_left,
}
use sentinel_home.Prelude.Dict.{lookup, insert}
use sentinel_home.Agent.Reading.{is_word}
use sentinel_home.Parsers.{SyslogMessage, Parsed, parse_line}
use sentinel_home.Parsers.Iptables.{to_line_end, dict_of, classify, try_parse}
use sentinel_home.Parsers.Iptables.Lines.{pairs_text, line_text, try_parse-line_text}

abbrev pairs : List (String × String)
pairs =
    ("IN", "eth8")
    ∷ ("SRC", "203.0.113.9")
    ∷ ("DST", "192.168.1.2")
    ∷ ("PROTO", "TCP")
    ∷ ("SPT", "4431")
    ∷ ("DPT", "22")
    ∷ ("TTL", "49")
    ∷ []

abbrev header : SyslogMessage
header = record {
  timestamp = none;
  hostname = "router";
  program = "kernel";
  pid = some 7;
  message = line_text "WAN_LOCAL-D-4000" pairs;
}

type_of : Option Parsed → Option String
type_of none = none
type_of (some p) = some p.result.event_type

through_chain :
    type_of (parse_line (λ line. some header) (try_parse ∷ []) "").1 ≡ some "fw_wan_block"
unfolding type_of parse_line decimal try_parse has_prefix has_substring upper lookup insert is_space
    strip_left is_word
through_chain = refl

try_parse-line_text_example :
    try_parse "kernel" (line_text "WAN_LOCAL-D-4000" pairs)
    ≡ classify
        (record { chain = "WAN_LOCAL-D-4000"; descr = ""; fields = pairs_text pairs })
        (dict_of pairs [])
unfolding is_word is_space has_prefix to_line_end
try_parse-line_text_example =
    try_parse-line_text "kernel" "WAN_LOCAL-D-4000" pairs (refl, refl)
      (
        (refl, refl, refl, refl),
        (
          (refl, refl, refl, refl),
          (
            (refl, refl, refl, refl),
            (
              (refl, refl, refl, refl),
              (
                (refl, refl, refl, refl),
                ((refl, refl, refl, refl), ((refl, refl, refl, refl), tt)),
              ),
            ),
          ),
        ),
      )
      (refl, refl, refl)
