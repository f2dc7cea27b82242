-- ===== src/Tests/Wire.antt =====
-- Server-sent events and fragments of JSON.
use kern_proxy.Base.{◌≡◌, refl, Bool, true, length, List, [], ◌∷◌}
use kern_proxy.Base.Bytes.{Bytes, codes, eq_bytes}
use kern_proxy.Sse.{Event, new_reader, read_byte, read_all}
use kern_proxy.Sse.LineEnds.{with_crlf, with_cr, read_all-line_ends}
use kern_proxy.PartialJson.Repair.{is_valid_escape, repair}
use kern_proxy.PartialJson.Repair.Clean.{Lexer, is_clean, repair-clean, repair-of_clean}
use kern_proxy.PartialJson.Parse.{
  Value, Values, Fields, Parsed, append_value, put_field, parse_string, parse_number, value_at,
  array_at, object_at, parse_value, parse_partial,
}
use kern_proxy.PartialJson.Text.{skip_ws, span_number, parse_number_text, string_from}
use kern_proxy.PartialJson.Parse.Scalars.{Leaves}
use kern_proxy.PartialJson.Parse.Total.{parse_partial-Leaves}
use kern_proxy.PartialJson.Parse.Print.{IsPlain, print}
use kern_proxy.PartialJson.Parse.RoundTrip.{parse_partial-print}

abbrev two_events : List Event
two_events =
    record {
      event = codes "message_start";
      payload = codes "{\"a\":1}";
      id = codes "1";
      retry = codes "9";
    }
    ∷ record { event = codes "ping"; payload = codes "x\ny"; id = []; retry = [] }
    ∷ []

-- An event without its blank line.
abbrev torn : Bytes
torn = codes "data: half\n"

abbrev stream_text : Bytes
stream_text = codes "event: ping\n: comment\ndata: x\n\ndata: y\n\n"

-- Nothing comes of it.
read_torn : read_all new_reader torn ≡ []
unfolding read_all read_byte
read_torn = refl

read_all-line_ends_example :
    (read_all new_reader (with_crlf stream_text) ≡ read_all new_reader stream_text)
    × (read_all new_reader (with_cr stream_text) ≡ read_all new_reader stream_text)
read_all-line_ends_example = read_all-line_ends stream_text refl

-- A bare tab, an escape that JSON does not have, and a backslash at the end.
abbrev broken : Bytes
broken = codes "{\"a\tb\": \"c\\d\\"

repair-clean_example : is_clean Lexer.outside (repair broken) ≡ true
repair-clean_example = repair-clean broken

repair-broken : repair broken ≡ codes "{\"a\\tb\": \"c\\\\d\\\\"
unfolding repair
repair-broken = refl

abbrev sound : Bytes
sound = codes "{\"a\\n\": \"\\u00e9\"}"

sound-clean : is_clean Lexer.outside sound ≡ true
unfolding is_valid_escape
sound-clean = refl

repair-of_clean_example : repair sound ≡ sound
repair-of_clean_example = repair-of_clean sound sound-clean

-- Digits are numbers.
abbrev digits : Bytes → Bool
digits t = true

abbrev arguments : Value
arguments = Value.object (
    Fields.field (codes "path") (Value.string (codes "a.go")) (
      Fields.field (codes "lines")
        (Value.array (Values.value (Value.number (codes "12")) Values.no_values)) Fields.no_fields))

arguments-IsPlain : IsPlain digits arguments
unfolding eq_bytes
arguments-IsPlain = (refl, refl, refl, (refl, refl, ((refl, refl, refl), tt), tt))

parse_partial-print_example : parse_partial digits (print arguments []) ≡ Parsed.got arguments []
parse_partial-print_example = parse_partial-print digits arguments [] arguments-IsPlain refl

parse_partial-Leaves_example : Leaves (length torn) (parse_partial digits torn)
parse_partial-Leaves_example = parse_partial-Leaves digits torn

-- The last value is cut off.
cut_off :
    parse_partial digits (codes "{\"path\": \"a.go\", \"lines\": [12, 3")
    ≡ Parsed.got
        (Value.object (
          Fields.field (codes "path") (Value.string (codes "a.go")) (
            Fields.field
              (codes "lines")
              (Value.array (
                Values.value
                  (Value.number (codes "12"))
                  (Values.value (Value.number (codes "3")) Values.no_values)))
              Fields.no_fields)))
        []
unfolding parse_partial skip_ws parse_value value_at object_at string_from parse_string array_at
    parse_number parse_number_text span_number put_field eq_bytes append_value
cut_off = refl
