-- ===== src/Commands/Flags.antt =====
-- What the commands use of package flag: string and Boolean flags with ExitOnError, as `Parse` of
-- the standard library reads them.
pub mod Rest
use tsecret.Common.{
  Bool, false, ◌||◌, Option, none, some, List, [], ◌∷◌, Text, codes, text_eq, Map, lookup, insert,
  cut, ◌==◌, if◌then◌else◌,
}

pub data Kind : Type 0 where
  of_text : Kind
  of_bool : Kind

-- What one argument is: the flags end before it or behind it, it is wrong, it asks for help, it
-- sets a flag, or it names a flag whose value is the next argument.
pub data Token : Type 0 where
  positional : Token
  terminator : Token
  malformed : Token
  asks_help : Token
  assign : Text → Text → Token
  needs : Text → Token

is_one_of : Text → List Text → Bool
is_one_of s [] = false
is_one_of s (t ∷ ts) = text_eq s t || is_one_of s ts

-- strconv.ParseBool, with the value as FormatBool writes it.
unfoldable pub parse_bool : Text → Option Text
unfolding is_one_of
parse_bool s =
    if is_one_of s
      (codes "1" ∷ codes "t" ∷ codes "T" ∷ codes "TRUE" ∷ codes "true" ∷ codes "True" ∷ [])
    then some (codes "true")
    else if is_one_of s
        (codes "0" ∷ codes "f" ∷ codes "F" ∷ codes "FALSE" ∷ codes "false" ∷ codes "False" ∷ [])
    then some (codes "false")
    else none

-- A flag that is defined, with the value behind its `=`, if there is one.
unfoldable pub set_flag : Text → Kind → Option Text → Token
unfolding parse_bool
set_flag name of_text (some value) = assign name value
set_flag name of_text none = needs name
set_flag name of_bool none = assign name (codes "true")
set_flag name of_bool (some value) = elim (parse_bool value) [
  | some b ↦ assign name b
  | none ↦ malformed
]

unfoldable pub find_flag : Map Kind → Text → Option Text → Token
unfolding set_flag
find_flag formal name value = elim (lookup name formal) [
  | some kind ↦ set_flag name kind value
  | none ↦ if text_eq name (codes "help") || text_eq name (codes "h") then asks_help else malformed
]

-- The text behind the dashes.
unfoldable pub read_name : Map Kind → Text → Token
unfolding find_flag
read_name formal [] = malformed
read_name formal (c ∷ s) = if c == b'-' || c == b'=' then malformed else elim (cut b'=' (c ∷ s)) [
  | some (name, value) ↦ find_flag formal name (some value)
  | none ↦ find_flag formal (c ∷ s) none
]

unfoldable pub read_flag : Map Kind → Text → Token
unfolding read_name
read_flag formal [] = positional
read_flag formal (c ∷ []) = positional
read_flag formal (c ∷ d ∷ []) =
    if c == b'-' then if d == b'-' then terminator else read_name formal (d ∷ []) else positional
read_flag formal (c ∷ d ∷ e ∷ s) =
    if c == b'-'
    then if d == b'-' then read_name formal (e ∷ s) else read_name formal (d ∷ e ∷ s)
    else positional

-- The flags that were set and the arguments behind them, or the exit with 2 or, for help, 0.
pub data Flags : Type 0 where
  parsed : Map Text → List Text → Flags
  bad_flags : Flags
  help : Flags

unfoldable pub parse_flags : Map Kind → List Text → Map Text → Flags
unfolding read_flag
parse_flags formal [] values = parsed values []
parse_flags formal (s ∷ []) values = elim (read_flag formal s) [
  | positional ↦ parsed values (s ∷ [])
  | terminator ↦ parsed values []
  | malformed ↦ bad_flags
  | asks_help ↦ help
  | assign name value ↦ parsed (insert name value values) []
  | needs name ↦ bad_flags
]
parse_flags formal (s ∷ t ∷ args) values = elim (read_flag formal s) [
  | positional ↦ parsed values (s ∷ t ∷ args)
  | terminator ↦ parsed values (t ∷ args)
  | malformed ↦ bad_flags
  | asks_help ↦ help
  | assign name value ↦ parse_flags formal (t ∷ args) (insert name value values)
  | needs name ↦ parse_flags formal args (insert name t values)
]

-- The value of a flag, or its default.
unfoldable pub value_of : Text → Text → Map Text → Text
value_of name default values = elim (lookup name values) [ none ↦ default | some value ↦ value ]
