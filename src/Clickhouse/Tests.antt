-- ===== src/Clickhouse/Tests.antt =====
-- Runs of clickhouse/, and its theorems at concrete inputs.
use kit_go.Common.{
  ◌≡◌, ◌≢◌, refl, true, false, some, List, [], ◌∷◌, arith, length, Str, codes, itoa, itoa_loop, pos,
  show_ℤ, count,
}
use kit_go.Mysql.Value.{Value, int64, str, value_to_string}
use kit_go.Mysql.Samples.{no_formats, id_column, people, nobody}
use kit_go.Mysql.Dml.{insert_text, del_nil_s, del_nil_i}
use kit_go.Mysql.Dml.Statements.{written}
use kit_go.Clickhouse.Dml.{
  default_flags, use_old_ver_flag, go_int, go_uint64, version_of, on_ck_insert, insert, update,
  delete,
}
use kit_go.Clickhouse.Dml.Statements.{on_ck_insert_lem}
use kit_go.Clickhouse.Dml.Tombstones.{
  row_statement, on_ck_insert-count, update-delete, insert-use_old_ver_flag,
}

abbrev ck_text : Str
ck_text = codes "insert into d.t (id,n,_del,_version) values (?,NULL,?,?)"

abbrev ck_args : List Value
ck_args = str (codes "7") ∷ go_int (pos 1) ∷ go_uint64 9 ∷ []

ck_run :
    on_ck_insert no_formats default_flags people nobody true (pos 1) 9 ≡ some (ck_text, ck_args)
unfolding on_ck_insert value_to_string insert_text show_ℤ itoa itoa_loop del_nil_s del_nil_i
ck_run = refl

on_ck_insert-count_run : count b'?' ck_text ≡ length ck_args
on_ck_insert-count_run =
    on_ck_insert-count no_formats default_flags people nobody true (pos 1) 9 (omega arith)
      (refl, (refl, tt)) (omega arith) (omega arith) (omega arith) ck_text ck_args ck_run

on_ck_insert_lem_example :
    on_ck_insert no_formats default_flags people nobody false (pos 1) 9
    ≡ some (
      insert_text
          (codes "d")
          (codes "t")
          (codes "id" ∷ codes "_del" ∷ codes "_version" ∷ [])
          (codes "?" ∷ codes "?" ∷ codes "?" ∷ []),
      written no_formats (id_column, int64 (pos 7)) ∷ go_int (pos 1) ∷ go_uint64 9 ∷ [],
    )
on_ck_insert_lem_example =
    on_ck_insert_lem no_formats default_flags people nobody false (pos 1) 9 (omega arith)
      (refl, (refl, tt))

update-delete_example :
    (del : Str × List Value) × (ins : Str × List Value) × (update no_formats default_flags people
        nobody nobody 4
        (9 ∷ [])
      ≡ some (del ∷ ins ∷ []))
    × (delete no_formats default_flags people nobody 4 (9 ∷ []) ≡ some del)
    × (ins ≡ row_statement no_formats default_flags people nobody true (pos 0) 9)
update-delete_example =
    update-delete no_formats default_flags people nobody nobody 4 (9 ∷ []) (omega arith)
      (omega arith) (refl, (refl, tt))

insert-use_old_ver_flag_run :
    let old = use_old_ver_flag default_flags in
    insert no_formats old people nobody 4 (9 ∷ [])
    ≢ on_ck_insert no_formats old people nobody false old.data_insert (version_of 4 (9 ∷ []))
insert-use_old_ver_flag_run =
    insert-use_old_ver_flag no_formats default_flags people nobody 4 (9 ∷ []) (omega arith)
      (refl, (refl, tt))
