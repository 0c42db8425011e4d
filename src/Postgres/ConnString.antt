-- ===== src/Postgres/ConnString.antt =====
-- internal/postgres/listener.go: the replication parameter of a connection string.
pub mod Strip
use excalibase_watcher.Mysql.CommitGate.{has_prefix}
use excalibase_watcher.Base.{
  ℕ, zero, suc, ◌-◌, Bool, ◌||◌, [], ◌∷◌, ◌++◌, if◌then◌else◌, length, Bytes, codes,
}

-- `strings.Contains`, with the text first.
unfoldable pub contains_text : Bytes → Bytes → Bool
unfolding has_prefix
contains_text [] sub = has_prefix sub []
contains_text (c ∷ s) sub = has_prefix sub (c ∷ s) || contains_text s sub

-- `strings.ReplaceAll` of a text that is not empty, from a place on; the first argument counts the
-- bytes that are still part of the last occurrence.
unfoldable pub replace_from : ℕ → Bytes → Bytes → Bytes → Bytes
unfolding has_prefix
replace_from skip [] old new = []
replace_from (suc skip) (c ∷ s) old new = replace_from skip s old new
replace_from zero (c ∷ s) old new =
    let found = replace_from (length old - 1) s old new in
    let rest = replace_from 0 s old new in if has_prefix old (c ∷ s) then new ++ found else c ∷ rest

unfoldable pub replace_all : Bytes → Bytes → Bytes → Bytes
unfolding replace_from
replace_all s old new = replace_from 0 s old new

abbrev pub replication_key : Bytes
replication_key = codes "replication="

abbrev pub replication_param : Bytes
replication_param = codes "replication=database"

unfoldable pub ensure_replication_param : Bytes → Bytes
unfolding contains_text
ensure_replication_param conn_str =
    if contains_text conn_str replication_key
    then conn_str
    else if contains_text conn_str (codes "?")
    then conn_str ++ b'&' ∷ replication_param
    else conn_str ++ b'?' ∷ replication_param

unfoldable pub strip_replication_param : Bytes → Bytes
unfolding replace_all
strip_replication_param conn_str =
    let first = replace_all conn_str (b'&' ∷ replication_param) [] in
    let second = replace_all first (codes "?replication=database&") (codes "?") in
    replace_all second (b'?' ∷ replication_param) []
