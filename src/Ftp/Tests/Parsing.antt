-- ===== src/Ftp/Tests/Parsing.antt =====
-- The parsers on concrete lines.
use vitacompanion_vitadeck.Prelude.{
  ◌≡◌, ◌↔◌, refl, some, List, [], ◌∷◌, ◌++◌, map, arith, valid, Text, codes, All,
}
use vitacompanion_vitadeck.Ftp.Parse.{
  parse_command_line, copy_command_argument, parse_rest_offset, parse_port_tuple, port_fields,
  port_field, port_digits, port_separator, finish_port, skip_blanks,
}
use vitacompanion_vitadeck.Ftp.Parse.Line.{SplitsAs, parse_command_line-iff-SplitsAs}
use vitacompanion_vitadeck.Ftp.Parse.Argument.{CopiesAs, copy_command_argument-iff-CopiesAs}
use vitacompanion_vitadeck.Ftp.Parse.Number.{decimal, RestOffset, parse_rest_offset-iff-RestOffset}
use vitacompanion_vitadeck.Ftp.Parse.Port.{IsOctet, tuple_text, parse_port_tuple-tuple_text}

abbrev line_end : Text
line_end = 13 ∷ 10 ∷ []

parse_command_line-iff-SplitsAs_example :
    (parse_command_line (some (codes " RETR  a b" ++ line_end)) valid 16 valid
      ≡ some (codes "RETR", codes "a b" ++ line_end))
    ↔ SplitsAs 16 (codes " RETR  a b" ++ line_end) (codes "RETR") (codes "a b" ++ line_end)
parse_command_line-iff-SplitsAs_example =
    parse_command_line-iff-SplitsAs 16 (codes " RETR  a b" ++ line_end) (codes "RETR")
      (codes "a b" ++ line_end)

copy_command_argument-iff-CopiesAs_example :
    (copy_command_argument (some (codes "a b" ++ line_end)) valid 8 ≡ some (codes "a b"))
    ↔ CopiesAs 8 (codes "a b" ++ line_end) (codes "a b")
copy_command_argument-iff-CopiesAs_example =
    copy_command_argument-iff-CopiesAs 8 (codes "a b" ++ line_end) (codes "a b")

parse_rest_offset-iff-RestOffset_example :
    (parse_rest_offset (some (codes " 1024 " ++ line_end)) valid ≡ some 1024)
    ↔ RestOffset (codes " 1024 " ++ line_end) 1024
parse_rest_offset-iff-RestOffset_example =
    parse_rest_offset-iff-RestOffset (codes " 1024 " ++ line_end) 1024

abbrev octets : List Text
octets = codes "192" ∷ codes "168" ∷ codes "0" ∷ codes "7" ∷ codes "19" ∷ codes "136" ∷ []

octets-IsOctet : All IsOctet octets
unfolding decimal
octets-IsOctet = ground arith

parse_port_tuple-tuple_text_example :
    parse_port_tuple (some (tuple_text octets (codes " " ++ line_end))) valid
    ≡ some (map (decimal 0) octets)
parse_port_tuple-tuple_text_example =
    parse_port_tuple-tuple_text octets (codes " ") line_end refl octets-IsOctet (refl, tt) refl

port_read :
    parse_port_tuple (some (codes "192,168,0,7,19,136")) valid
    ≡ some (192 ∷ 168 ∷ 0 ∷ 7 ∷ 19 ∷ 136 ∷ [])
unfolding parse_port_tuple port_fields port_field port_digits port_separator finish_port skip_blanks
port_read = refl
