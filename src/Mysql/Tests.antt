-- ===== src/Mysql/Tests.antt =====
-- Runs of mysql/, and its theorems at concrete inputs.
use kit_go.Common.{
  replicate, take, ◌^◌, ◌≡◌, refl, true, false, none, some, List, [], ◌∷◌, arith, Str, codes, itoa,
  itoa_loop, pos, show_ℤ, count,
}
use kit_go.Mysql.Value.{Value, int64, str, bytes, value_to_string, set_members}
use kit_go.Mysql.Value.Members.{set_members-mask_of, set_members-take}
use kit_go.Mysql.Samples.{no_formats, id_column, people, nobody}
use kit_go.Mysql.Dml.{
  insert, insert_text, update_and_delete, update, delete, update_row, update_text, delete_text,
}
use kit_go.Mysql.Dml.Placeholders.{insert-count, update_and_delete-count}
use kit_go.Mysql.Dml.Statements.{written, insert_lem}
use kit_go.Mysql.Dml.Changes.{update_lem, delete_lem}

abbrev ann : List Value
ann = int64 (pos 7) ∷ bytes (codes "ann") ∷ []

abbrev insert_ann : Str
insert_ann = codes "insert into d.t (id,n) values (?,?)"

insert_run :
    insert no_formats people ann ≡ some (insert_ann, str (codes "7") ∷ str (codes "ann") ∷ [])
unfolding insert value_to_string show_ℤ itoa itoa_loop
insert_run = refl

abbrev update_ann : Str
update_ann = codes "update d.t set n = NULL where id = ?"

update_run :
    update_and_delete no_formats update_row people ann nobody
    ≡ some (update_ann, str (codes "7") ∷ [])
unfolding update_and_delete value_to_string show_ℤ itoa itoa_loop
update_run = refl

delete_run :
    delete no_formats people ann ≡ some (codes "DELETE FROM d.t WHERE id = ?", str (codes "7") ∷ [])
unfolding delete value_to_string show_ℤ itoa itoa_loop
delete_run = refl

short_row : update no_formats people ann (int64 (pos 7) ∷ []) ≡ none
unfolding update
short_row = refl

insert-count_run : count b'?' insert_ann ≡ 2
insert-count_run =
    insert-count no_formats people ann insert_ann (str (codes "7") ∷ str (codes "ann") ∷ [])
      (omega arith) insert_run

update_and_delete-count_example : count b'?' update_ann ≡ 1
update_and_delete-count_example =
    update_and_delete-count no_formats update_row people ann nobody update_ann
      (str (codes "7") ∷ []) (omega arith) update_run

insert_lem_example :
    insert no_formats people nobody
    ≡ some (
      insert_text (codes "d") (codes "t") (codes "id" ∷ []) (codes "?" ∷ []),
      written no_formats (id_column, int64 (pos 7)) ∷ [],
    )
insert_lem_example = insert_lem no_formats people nobody (omega arith) (refl, (refl, tt))

update_lem_example :
    update no_formats people ann nobody
    ≡ some (
      update_text (codes "d") (codes "t") (codes "n = NULL" ∷ []) (codes "id = ?" ∷ []),
      written no_formats (id_column, int64 (pos 7)) ∷ [],
    )
update_lem_example = update_lem no_formats people ann nobody (omega arith) (omega arith)

delete_lem_run :
    delete no_formats people ann
    ≡ some (
      delete_text (codes "d") (codes "t") (codes "id = ?" ∷ []),
      written no_formats (id_column, int64 (pos 7)) ∷ [],
    )
delete_lem_run = delete_lem no_formats people ann (omega arith)

set_members-mask_of_run :
    set_members 5 0 (codes "a" ∷ codes "b" ∷ codes "c" ∷ []) ≡ codes "a" ∷ codes "c" ∷ []
set_members-mask_of_run =
    set_members-mask_of (true ∷ false ∷ true ∷ []) (codes "a" ∷ codes "b" ∷ codes "c" ∷ []) refl
      (omega arith)

abbrev many_members : List Str
many_members = replicate 64 (codes "m")

set_members-take_run :
    set_members (2 ^ 63) 0 many_members ≡ set_members (2 ^ 63) 0 (take 63 many_members)
set_members-take_run = set_members-take (2 ^ 63) many_members
