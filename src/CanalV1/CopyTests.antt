-- ===== src/CanalV1/CopyTests.antt =====
-- Runs of canal/v1/canal.go: the loop that saves positions, the handlers of rows and the full
-- copy, and their theorems at concrete inputs.
use kit_go.Common.{
  ◌≡◌, ◌*◌, refl, ◌++◌, true, Option, none, some, List, [], ◌∷◌, arith, Str, codes, str_eq,
  if◌then◌else◌,
}
use kit_go.CanalV1.Master.{MasterInfo, second}
use kit_go.CanalV1.Saving.{Saver, start, on_message, Reach, ticks, message, here, next}
use kit_go.CanalV1.Saving.Positions.{IsSound, start-IsSound}
use kit_go.CanalV1.Saving.Ticks.{written, ticks_erase}
use kit_go.CanalV1.Rows.{
  Row, RowsEvent, RowFn, callback_handler_on_row, insert_action, default_handler_on_row,
}
use kit_go.CanalV1.Rows.Dispatch.{first_change, callback_handler_first}
use kit_go.Common.Replace.{replace_loop}
use kit_go.CanalV1.FullData.{
  tables_of, group_tables, select_text, back_quote, fetch_db_create_sql, fetch_table_crete_sql,
  get_all_create_sql,
}
use kit_go.Mysql.Schema.{rewrite_mysql_query_column}
use kit_go.CanalV1.FullData.Groups.{
  tables_of-group_tables, select_text_lem, select_text-rewrite_mysql_query_column,
}
use kit_go.CanalV1.FullData.Creates.{statements, get_all_create_sql_lem, fetch_table_crete_sql_lem}
use kit_go.Mysql.Samples.{people, nobody, no_formats}

abbrev loaded : MasterInfo
loaded = record {
  gtid_set = codes "g:1";
  file_path = codes "f";
  last_save_time = 0;
  file = some (codes "g:1");
}

abbrev SentTwo : Str → Type 0
SentTwo g = g ≡ codes "g:2"

abbrev received : Saver
received = on_message (λ s. s) (codes "g:2") true (5 * second) (5 * second) none (start 0 loaded)

received-Reach : Reach (λ s. s) SentTwo (start 0 loaded) received
unfolding start
received-Reach =
    next here (message (start 0 loaded) (codes "g:2") true (5 * second) (5 * second) none refl refl)

start-IsSound_example : IsSound (λ s. s) SentTwo (some (codes "g:1")) received
start-IsSound_example =
    start-IsSound (λ s. s) SentTwo (some (codes "g:1")) 0 loaded received refl received-Reach

position_stored : received.master.file ≡ some (codes "g:2")
unfolding on_message start
position_stored = refl

ticks_erase_example :
    (ticks (λ s. s) (written (200 ∷ 2 * second ∷ [])) (start 0 loaded)).master.file ≡ some []
ticks_erase_example = ticks_erase (λ s. s) (200 ∷ []) [] (2 * second) 0 loaded refl (omega arith)

abbrev note_row : RowFn (List Row)
note_row t row w = (w ++ (row ∷ []), none)

abbrev two_inserts : RowsEvent
two_inserts = record { action = insert_action; table = people; rows = nobody ∷ nobody ∷ [] }

callback_handler_first_example :
    callback_handler_on_row (some note_row) none none (first_change two_inserts) []
    ≡ callback_handler_on_row (some note_row) none none two_inserts []
callback_handler_first_example = callback_handler_first (some note_row) none none two_inserts []

second_row_unseen :
    callback_handler_on_row (some note_row) none none two_inserts [] ≡ some (nobody ∷ [], none)
unfolding callback_handler_on_row
second_row_unseen = refl

printed_update :
    default_handler_on_row no_formats
      (record { action = codes "truncate"; table = people; rows = [] })
      []
    ≡ some ([], some (codes "invalid rows action truncate"))
unfolding default_handler_on_row
printed_update = refl

abbrev three_tables : List (Str × Str)
three_tables = (codes "a", codes "t") ∷ (codes "b", codes "u") ∷ (codes "a", codes "v") ∷ []

tables_of-group_tables_example :
    tables_of (codes "a") (group_tables (λ key. true) three_tables []) ≡ codes "t" ∷ codes "v" ∷ []
tables_of-group_tables_example = tables_of-group_tables (λ key. true) three_tables [] (codes "a")

abbrev two_columns : List (Str × Str)
two_columns = (codes "id", codes "int") ∷ (codes "s", codes "set('x','y')") ∷ []

select_text_lem_run :
    select_text (codes "a") (codes "t") two_columns (codes " WHERE 1" ∷ [])
    ≡ codes "SELECT `id`,`s` + 0 FROM `a`.`t` WHERE 1"
unfolding back_quote
select_text_lem_run =
    select_text_lem (codes "a") (codes "t") (codes "id", codes "int")
      ((codes "s", codes "set('x','y')") ∷ []) (codes " WHERE 1" ∷ [])

abbrev show_sql : Str → Option Str
show_sql q =
    if str_eq q (codes "SHOW CREATE TABLE a.t")
    then some (codes "CREATE TABLE `t` (`id` int)")
    else (if str_eq q (codes "SHOW CREATE TABLE a.v")
        then some (codes "CREATE TABLE `v` (`id` int)")
        else some (codes "CREATE DATABASE `a`"))

abbrev a_tables : List (Str × Str)
a_tables = (codes "a", codes "t") ∷ (codes "a", codes "v") ∷ []

get_all_create_sql_lem_example :
    get_all_create_sql (λ key. true) (λ s. none) show_sql [] (some a_tables)
    ≡ statements (λ key. true) (λ s. none) show_sql [] a_tables
get_all_create_sql_lem_example =
    get_all_create_sql_lem (λ key. true) (λ s. none) show_sql [] a_tables

database_twice :
    statements (λ key. true) (λ s. none) show_sql [] a_tables
    ≡ codes "CREATE DATABASE `a`"
      ∷ codes "CREATE TABLE `a`.`t` (`id` int)"
      ∷ codes "CREATE DATABASE `a`"
      ∷ codes "CREATE TABLE `a`.`v` (`id` int)"
      ∷ []
unfolding fetch_db_create_sql fetch_table_crete_sql replace_loop
database_twice = refl

fetch_table_crete_sql_lem_run :
    fetch_table_crete_sql show_sql (codes "a") (codes "t")
    ≡ codes "CREATE TABLE `a`.`t`"
      ++ replace_loop 0
          (codes "CREATE TABLE `t`")
          (codes "CREATE TABLE `a`.`t`")
          (codes " (`id` int)")
unfolding back_quote
fetch_table_crete_sql_lem_run =
    fetch_table_crete_sql_lem show_sql (codes "a") (codes "t") (codes " (`id` int)") refl

abbrev t_columns : Str → Str → Option (List (Str × Str))
t_columns db table = some two_columns

select_text-rewrite_example :
    select_text (codes "a") (codes "t") two_columns []
    ≡ codes "SELECT "
      ++ (rewrite_mysql_query_column t_columns (codes "a") (codes "t")
          ++ (codes " FROM "
              ++ (back_quote (codes "a") ++ (codes "." ++ (back_quote (codes "t") ++ [])))))
select_text-rewrite_example =
    select_text-rewrite_mysql_query_column t_columns (codes "a") (codes "t")
      (codes "id", codes "int") ((codes "s", codes "set('x','y')") ∷ []) [] refl

columns_of_t : rewrite_mysql_query_column t_columns (codes "a") (codes "t") ≡ codes "`id`,`s` + 0"
unfolding rewrite_mysql_query_column kit_go.Mysql.Schema.back_quote
columns_of_t = refl
