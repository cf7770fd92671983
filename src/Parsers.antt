-- ===== src/Parsers.antt =====
-- sentinel_home/parsers/__init__.py: the chain of parsers. The header's parser and the content parsers
-- are arguments; Iptables is one of the latter.
pub mod Iptables
mod Examples
use Prim.Native.String.{◌++◌ as str_append}
use sentinel_home.Prelude.{
  ℕ, String, not, Option, none, some, List, [], ◌∷◌, truthy, decimal, ◌==◌, nat_eq, string_eq,
  if◌then◌else◌,
}
use sentinel_home.Models.{ParseResult}

pub record SyslogMessage : Type 0 where
  pub timestamp : Option ℕ
  pub hostname : String
  pub program : String
  pub pid : Option ℕ
  pub message : String

-- a `ParseResult` with its hint
pub record Parsed : Type 0 where
  pub result : ParseResult
  pub device_type_hint : Option String

-- `try_parse` of a parser, given the program and the message
abbrev pub Parser : Type 0
Parser = String → String → Option Parsed

abbrev pid_part : Option ℕ → String
pid_part none = ""
pid_part (some pid) = if pid == 0 then "" else str_append "[" (str_append (decimal pid) "]")

-- the body that is put together again for the parsers
unfoldable pub body_of : String → SyslogMessage → String
body_of raw_line h =
    if truthy h.message
    then str_append h.program (str_append (pid_part h.pid) (str_append ": " h.message))
    else raw_line

unfoldable pub try_parsers : List Parser → Parser
try_parsers [] program body = none
try_parsers (p ∷ parsers) program body = elim (p program body) [
  | some result ↦ some result
  | none ↦ try_parsers parsers program body
]

unfoldable pub parse_line :
    (String → Option SyslogMessage) → List Parser → String → Option SyslogMessage × Option Parsed
unfolding try_parsers body_of
parse_line parse_syslog_header parsers raw_line = elim (parse_syslog_header raw_line) [
  | none ↦ (none, try_parsers parsers "" raw_line)
  | some h ↦ (some h, try_parsers parsers h.program (body_of raw_line h))
]
