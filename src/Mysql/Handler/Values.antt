-- ===== src/Mysql/Handler/Values.antt =====
-- Row images as JSON: `rowToJSON` and `appendValue` of internal/mysql/listener.go, and
-- `generateServerID`.
-- A float, a time and a value of any other Go type stand for themselves by the texts that the
-- standard library prints for them; `json.Valid` is the parameter `valid_json`.
use excalibase_watcher.Base.{
  ℕ, ◌+◌, ◌*◌, ◌%◌, ◌≤◌, ◌<◌, Bool, true, false, ◌&&◌, Option, none, some, List, [], ◌∷◌, ◌++◌,
  arith, if◌then◌else◌, u32_mod, drop, Bytes, codes, decimal,
}
use excalibase_watcher.Jsonutil.{escape_string, runes}

pub data Value : Type 0 where
  int_value : Bool → ℕ → Value
  uint_value : ℕ → Value
  float_value : Bytes → Value
  bool_value : Bool → Value
  bytes_value string_value : Bytes → Value
  time_value : Bytes → Bytes → Value
  other_value : Bytes → Option Bytes → Value

pub record Column : Type 0 where
  pub name : Bytes
  pub is_json : Bool

pub record Table : Type 0 where
  pub schema : Bytes
  pub name : Bytes
  pub columns : List Column

-- A row; `none` is `nil`.
abbrev pub Row : Type 0
Row = List (Option Value)

abbrev bool_text : Bool → Bytes
bool_text true = codes "true"
bool_text false = codes "false"

-- `fmt.Sprintf("%v", val)`. An integer's sign is its first argument, and a time's text for `%v` its
-- second.
unfoldable pub printed : Value → Bytes
unfolding decimal
printed (int_value true n) = b'-' ∷ decimal n
printed (int_value false n) = decimal n
printed (uint_value n) = decimal n
printed (float_value text) = text
printed (bool_value b) = bool_text b
printed (bytes_value s) = s
printed (string_value s) = s
printed (time_value _ text) = text
printed (other_value text _) = text

abbrev pub quoted_json : Bytes → Bytes
quoted_json s = b'"' ∷ (s ++ b'"' ∷ [])

-- The second switch of `appendValue`.
unfoldable pub plain_value : Value → Bytes
unfolding printed
plain_value (bytes_value s) = quoted_json (escape_string s)
plain_value (string_value s) = quoted_json (escape_string s)
plain_value (time_value formatted _) = quoted_json formatted
plain_value (other_value text none) = quoted_json text
plain_value (other_value _ (some text)) = text
plain_value v = printed v

unfoldable pub append_value : (Bytes → Bool) → Value → Bool → Bytes
unfolding plain_value printed
append_value valid_json v is_json =
    if is_json && valid_json (printed v) then printed v else plain_value v

-- The value of a column: `null` where the row has no value for it.
unfoldable pub cell_json : (Bytes → Bool) → Column → Row → Bytes
unfolding append_value
cell_json valid_json c [] = codes "null"
cell_json valid_json c (none ∷ _) = codes "null"
cell_json valid_json c (some v ∷ _) = append_value valid_json v c.is_json

abbrev comma : List Column → Bytes
comma [] = []
comma (_ ∷ _) = codes ", "

-- The loop of `rowToJSON` over the columns, with the row from the same place on.
pub json_columns : (Bytes → Bool) → List Column → Row → Bytes
unfolding cell_json
json_columns valid_json [] row = []
json_columns valid_json (c ∷ cs) row =
    quoted_json (escape_string c.name)
    ++ (b':'
        ∷ (cell_json valid_json c row ++ (comma cs ++ json_columns valid_json cs (drop 1 row))))

unfoldable pub row_to_json : (Bytes → Bool) → Table → Row → Bytes
unfolding json_columns
row_to_json valid_json table row = b'{' ∷ (json_columns valid_json table.columns row ++ b'}' ∷ [])

-- The loop of `generateServerID`, in uint32.
pub host_hash : ℕ → List ℕ → ℕ
host_hash h [] = h
host_hash h (c ∷ cs) = host_hash ((h * 31 + c) % u32_mod) cs

-- The absolute value and the conversion to a float and back do not change a 32-bit number.
unfoldable pub generate_server_id : Bytes → ℕ
unfolding host_hash
generate_server_id host = 65536 + host_hash 0 (runes host) % 65536

-- A generated server id lies between 65536 and 131071, for every host name.
pub generate_server_id_bounds :
    (host : Bytes) → (65536 ≤ generate_server_id host) × (generate_server_id host < 131072)
unfolding generate_server_id
generate_server_id_bounds host = omega arith
