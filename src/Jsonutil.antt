-- ===== src/Jsonutil.antt =====
-- internal/jsonutil/escape.go: escaping a string for a JSON text.
-- A Go string is a list of bytes; `range` decodes its runes as unicode/utf8 does, and `WriteRune`
-- encodes them again.
pub mod RoundTrip
use excalibase_watcher.Base.{
  ℕ, zero, suc, ◌+◌, ◌-◌, ◌*◌, ◌/◌, ◌%◌, Bool, ◌&&◌, ◌||◌, List, [], ◌∷◌, ◌++◌, ltb, leb, ◌==◌,
  if◌then◌else◌, Bytes,
}

abbrev within : ℕ → ℕ → ℕ → Bool
within lo hi b = leb lo b && leb b hi

abbrev rune_error : ℕ
rune_error = 0xFFFD

-- The range of the second byte after a lead byte.
abbrev second : ℕ → ℕ → Bool
second b0 b1 =
    if b0 == 0xE0
    then within 0xA0 0xBF b1
    else if b0 == 0xED
    then within 0x80 0x9F b1
    else if b0 == 0xF0
    then within 0x90 0xBF b1
    else if b0 == 0xF4
    then within 0x80 0x8F b1
    else within 0x80 0xBF b1

byte_at : ℕ → Bytes → ℕ
byte_at n [] = 0
byte_at zero (b ∷ bs) = b
byte_at (suc n) (b ∷ bs) = byte_at n bs

-- The rune at the head of `b0 ∷ rest`, and how many bytes of `rest` belong to it.
pub decode_rune : ℕ → Bytes → ℕ × ℕ
unfolding byte_at
decode_rune b0 rest =
    let b1 = byte_at 0 rest in
    let b2 = byte_at 1 rest in
    let b3 = byte_at 2 rest in
    if ltb b0 0x80
    then (b0, 0)
    else if within 0xC2 0xDF b0 && second b0 b1
    then ((b0 - 0xC0) * 64 + (b1 - 0x80), 1)
    else if within 0xE0 0xEF b0 && second b0 b1 && within 0x80 0xBF b2
    then ((b0 - 0xE0) * 4096 + (b1 - 0x80) * 64 + (b2 - 0x80), 2)
    else if within 0xF0 0xF4 b0 && second b0 b1 && within 0x80 0xBF b2 && within 0x80 0xBF b3
    then ((b0 - 0xF0) * 262144 + (b1 - 0x80) * 4096 + (b2 - 0x80) * 64 + (b3 - 0x80), 3)
    else (rune_error, 0)

-- The runes of a string, past the bytes that belong to the rune before.
pub runes_from : ℕ → Bytes → List ℕ
unfolding decode_rune
runes_from skip [] = []
runes_from (suc skip) (b ∷ bs) = runes_from skip bs
runes_from zero (b ∷ bs) = (decode_rune b bs).0 ∷ runes_from (decode_rune b bs).1 bs

pub runes : Bytes → List ℕ
unfolding runes_from
runes = runes_from 0

-- `WriteRune`.
pub encode_rune : ℕ → Bytes
encode_rune r =
    if ltb r 0x80
    then r ∷ []
    else if ltb r 0x800
    then (0xC0 + r / 64) ∷ (0x80 + r % 64) ∷ []
    else if within 0xD800 0xDFFF r || ltb 0x10FFFF r
    then 0xEF ∷ 0xBF ∷ 0xBD ∷ []
    else if ltb r 0x10000
    then (0xE0 + r / 4096) ∷ (0x80 + r / 64 % 64) ∷ (0x80 + r % 64) ∷ []
    else (0xF0 + r / 262144) ∷ (0x80 + r / 4096 % 64) ∷ (0x80 + r / 64 % 64) ∷ (0x80 + r % 64) ∷ []

pub hex_digit : ℕ → ℕ
hex_digit d = if ltb d 10 then b'0' + d else b'a' + (d - 10)

abbrev backslashed : ℕ → Bytes
backslashed c = b'\\' ∷ c ∷ []

-- What the loop of `EscapeString` writes for one rune.
pub escape_rune : ℕ → Bytes
unfolding encode_rune hex_digit
escape_rune c =
    if c == b'\\'
    then backslashed b'\\'
    else if c == b'"'
    then backslashed b'"'
    else if c == b'\n'
    then backslashed b'n'
    else if c == b'\r'
    then backslashed b'r'
    else if c == b'\t'
    then backslashed b't'
    else if c == 8
    then backslashed b'b'
    else if c == 12
    then backslashed b'f'
    else if ltb c 0x20 || c == 0x7f
    then b'\\' ∷ b'u' ∷ b'0' ∷ b'0' ∷ hex_digit (c / 16) ∷ hex_digit (c % 16) ∷ []
    else encode_rune c

pub escape_runes : List ℕ → Bytes
unfolding escape_rune
escape_runes [] = []
escape_runes (c ∷ cs) = escape_rune c ++ escape_runes cs

unfoldable pub escape_string : Bytes → Bytes
unfolding escape_runes runes
escape_string s = escape_runes (runes s)
