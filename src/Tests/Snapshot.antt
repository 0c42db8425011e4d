-- ===== src/Tests/Snapshot.antt =====
-- Snapshots of small tables, whose values are numbers, and of a small dump.
use excalibase_watcher.Postgres.Snapshot.Sql.{first_text, later_text, page_text}
use excalibase_watcher.Postgres.Dump.Blocks.{
  parse_dump_file-blocks, IsBlock, dump_events, dump_lines, Block,
}
use excalibase_watcher.Postgres.Dump.{parse_dump_file}
use excalibase_watcher.Postgres.Snapshot.{
  ChunkSpec, Row, Arg, value, number, Answer, rows, query_failed, finished, failed,
  validate_identifier, build_snapshot_event, key_value, snapshot_by_pk, by_offset, snapshot_table,
  run_chunked_snapshot,
}
use excalibase_watcher.Postgres.Snapshot.Complete.{snapshot_by_pk-all, by_offset-all}
use excalibase_watcher.Postgres.Snapshot.Beyond.{above}
use excalibase_watcher.Postgres.Snapshot.Stops.{events_of, run_chunked_snapshot-failed}
use excalibase_watcher.Base.{
  true, ℕ, ◌≡◌, refl, inl, false, Option, none, some, List, [], ◌∷◌, ◌++◌, map, arith,
  if◌then◌else◌, take, drop, Bytes, codes, bytes_eq, decimal,
}

abbrev NumberRow : Type 0
NumberRow = Row {V = ℕ} decimal 7

abbrev users_spec : ChunkSpec
users_spec = record {
  schema = codes "public";
  table = codes "users";
  pk = codes "id";
  columns = codes "id" ∷ codes "name" ∷ [];
  chunk_size = 2;
}

abbrev user : ℕ → NumberRow
user id = some id ∷ none ∷ []

abbrev users : List NumberRow
users = user 1 ∷ user 2 ∷ user 5 ∷ []

abbrev id_of : NumberRow → ℕ
id_of [] = 0
id_of (none ∷ _) = 0
id_of (some id ∷ _) = id

abbrev rank : ℕ → ℕ
rank id = id

-- A database that knows the three texts of a snapshot of `users`.
abbrev database : Bytes × List (Arg {V = ℕ} decimal 7) → Answer {V = ℕ} decimal 7
database (text, number limit ∷ []) =
    if bytes_eq text (first_text {V = ℕ} decimal 7 users_spec)
    then rows (take limit users) false
    else query_failed
database (text, number limit ∷ number offset ∷ []) =
    if bytes_eq text (page_text {V = ℕ} decimal 7 users_spec)
    then rows (take limit (drop offset users)) false
    else query_failed
database (text, value last ∷ number limit ∷ []) =
    if bytes_eq text (later_text {V = ℕ} decimal 7 users_spec)
    then rows (take limit (above decimal 7 users_spec id_of rank last users)) false
    else query_failed
database _ = query_failed

snapshot_by_pk-all_example :
    snapshot_by_pk decimal 7 database 4 users_spec
    ≡ record { events = map (build_snapshot_event decimal 7 users_spec) users; status = finished }
unfolding validate_identifier key_value bytes_eq
snapshot_by_pk-all_example =
    snapshot_by_pk-all decimal 7 users_spec id_of rank database users (omega arith) 4 refl
      (omega arith, (omega arith, (omega arith, tt)))
      ((λ last. refl), ((λ last. refl), ((λ last. refl), tt))) (omega arith)
      (record { first = λ n. refl; later = λ v n. refl })

by_offset-all_example :
    by_offset decimal 7 database 4 users_spec 0
    ≡ record { events = map (build_snapshot_event decimal 7 users_spec) users; status = finished }
unfolding bytes_eq
by_offset-all_example =
    by_offset-all decimal 7 users_spec id_of rank database users (omega arith) 4 (omega arith)
      (omega arith, (omega arith, (omega arith, tt))) (record { page = λ a n offset. refl })

abbrev columns_of : Bytes → Option (List Bytes)
columns_of table = some (codes "id" ∷ codes "name" ∷ [])

-- The catalogue query for the key fails for one table.
abbrev key_of : Bytes → Option Bytes
key_of table = if bytes_eq table (codes "broken") then none else some []

run_chunked_snapshot-failed_example :
    run_chunked_snapshot decimal 7 database columns_of key_of 4
      (codes "public")
      2
      none
      (codes "users" ∷ codes "broken" ∷ codes "later" ∷ [])
    ≡ record {
      events =
          events_of decimal 7 database columns_of key_of 4 (codes "public") 2 (codes "users" ∷ [])
          ++ (snapshot_table decimal 7 database columns_of key_of 4
              (codes "public")
              2
              (codes "broken")).events;
      status = failed;
    }
unfolding validate_identifier bytes_eq snapshot_table
run_chunked_snapshot-failed_example =
    run_chunked_snapshot-failed decimal 7 database columns_of key_of 4 (codes "public") 2 none
      (codes "users" ∷ codes "broken" ∷ codes "later" ∷ []) (codes "users" ∷ []) (codes "broken")
      (codes "later" ∷ []) refl (inl refl) (refl, tt) refl

-- A header pattern that knows one line.
abbrev header_line : Bytes
header_line = codes "COPY public.users (id, name) FROM stdin;"

abbrev copy_header : Bytes → Option (Bytes × (Bytes × Bytes))
copy_header line =
    if bytes_eq line header_line
    then some (codes "public", (codes "users", codes "id, name"))
    else none

abbrev users_block : Block
users_block = record {
  noise = codes "--" ∷ [];
  header = header_line;
  schema = codes "public";
  table = codes "users";
  columns = (codes "id", codes "name" ∷ []);
  table_rows = (some (codes "7"), none ∷ []) ∷ (some (codes "8"), some (codes "Bo") ∷ []) ∷ [];
}

parse_dump_file-blocks_example :
    parse_dump_file copy_header 7
      (codes "0/1")
      (some (dump_lines (users_block ∷ []) (codes "SELECT 1;" ∷ []), true))
    ≡ (dump_events copy_header 7 (codes "0/1") (users_block ∷ []), true)
unfolding validate_identifier bytes_eq
parse_dump_file-blocks_example =
    parse_dump_file-blocks copy_header 7 (codes "0/1") true (users_block ∷ [])
      (codes "SELECT 1;" ∷ []) (users-IsBlock, tt) (refl, tt)
  where
    users-IsBlock : IsBlock copy_header 7 (codes "0/1") users_block
    users-IsBlock = record {
      noise_read = (refl, tt);
      header_read = refl;
      valid_schema = refl;
      valid_table = refl;
      plain_names = (
        ((refl, refl), ((refl, refl), tt)),
        (((refl, refl), ((refl, refl), ((refl, refl), ((refl, refl), tt)))), tt),
      );
      plain = (
        (((refl, refl), tt), (tt, tt)),
        ((((refl, refl), tt), (((refl, refl), ((refl, refl), tt)), tt)), tt),
      );
    }
