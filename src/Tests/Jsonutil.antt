-- ===== src/Tests/Jsonutil.antt =====
-- Escaping at concrete inputs.
use excalibase_watcher.Base.{◌≡◌, some, [], ◌∷◌, Bytes}
use excalibase_watcher.Jsonutil.{escape_string, runes}
use excalibase_watcher.Jsonutil.RoundTrip.{read_string, encode, read-escape_string}

-- A quote, a newline and a byte that is no UTF-8.
abbrev text : Bytes
text = b'a' ∷ b'"' ∷ 10 ∷ 0xFF ∷ []

read-escape_string_example : read_string (escape_string text) ≡ some (encode (runes text))
read-escape_string_example = read-escape_string text
