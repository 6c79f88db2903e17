-- ===== src/CanalV1/Rows.antt =====
-- canal/v1/canal.go: the handlers of row events. The callbacks change a world `W` of their own;
-- `none` in a result is the panic on a row that is not there.
pub mod Dispatch
use kit_go.Common.{
  Bool, true, false, Option, none, some, List, [], ◌∷◌, ◌++◌, if◌then◌else◌, Str, codes, str_eq,
  get_elem?, ◌>>=◌,
}
use kit_go.Mysql.Value.{Value, Formats, TableInfo}
use kit_go.Mysql.Dml as Dml

abbrev pub Row : Type 0
Row = List Value

-- The fields of `RowsEvent` that the handlers read.
pub record RowsEvent : Type 0 where
  pub action : Str
  pub table : TableInfo
  pub rows : List Row

abbrev pub insert_action : Str
insert_action = codes "insert"

abbrev pub update_action : Str
update_action = codes "update"

abbrev pub delete_action : Str
delete_action = codes "delete"

abbrev pub invalid_action : Str → Str
invalid_action action = codes "invalid rows action " ++ action

abbrev pub RowFn : Type 0 → Type 0
RowFn W = TableInfo → Row → W → W × Option Str

abbrev pub RowsFn : Type 0 → Type 0
RowsFn W = TableInfo → Row → Row → W → W × Option Str

abbrev pub call_row : {W : Type 0} → Option (RowFn W) → RowsEvent → W → Option (W × Option Str)
call_row none e w = some (w, none)
call_row (some fn) e w = get_elem? e.rows 0 >>= λ row. some (fn e.table row w)

abbrev pub call_rows : {W : Type 0} → Option (RowsFn W) → RowsEvent → W → Option (W × Option Str)
call_rows none e w = some (w, none)
call_rows (some fn) e w = get_elem? e.rows 0 >>= λ before.
    (get_elem? e.rows 1 >>= λ after. some (fn e.table before after w))

unfoldable pub callback_handler_on_row :
    {W : Type 0}
    → Option (RowFn W)
    → Option (RowsFn W)
    → Option (RowFn W)
    → RowsEvent
    → W
    → Option (W × Option Str)
callback_handler_on_row insert update delete e w =
    if str_eq e.action insert_action
    then call_row insert e w
    else (if str_eq e.action update_action
        then call_rows update e w
        else (if str_eq e.action delete_action
            then call_row delete e w
            else some (w, some (invalid_action e.action))))

-- What `DefaultHandlerOnRow` prints: a statement and its values.
abbrev pub Printed : Type 0
Printed = List (Str × List Value)

abbrev pub print : Printed → Option (Str × List Value) → Option (Printed × Option Str)
print out none = none
print out (some s) = some (out ++ (s ∷ []), none)

module _ (f : Formats) where
  unfoldable pub default_handler_on_row : RowsEvent → Printed → Option (Printed × Option Str)
  default_handler_on_row e out =
      if str_eq e.action insert_action
      then print out (get_elem? e.rows 0 >>= Dml.insert f e.table)
      else (if str_eq e.action update_action
          then print out (
              get_elem? e.rows 0 >>= λ before. (get_elem? e.rows 1 >>= Dml.update f e.table before))
          else (if str_eq e.action delete_action
              then print out (get_elem? e.rows 0 >>= Dml.delete f e.table)
              else some (out, some (invalid_action e.action))))
