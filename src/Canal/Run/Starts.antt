-- ===== src/Canal/Run/Starts.antt =====
-- Which position the replication of canal/canal.go starts from.
use kit_go.Common.{
  ◌≡◌, refl, Bool, false, Option, none, some, List, is_empty, Str, Bool-cases, inl, inr,
}
use kit_go.Canal.Filter.{FilterTable}
use kit_go.Canal.Run.{
  Outcome, panicked, Handler, nil_handler, default_handler, other_handler, no_handler, not_set,
  failed, started, Prepare, Tables, rows, query_error, choose, matching_tables, loaded_then,
  start_from, after_prepare, prepared, run,
}

module _ {G W : Type 0} (string : G → Str) where
  -- A run that has started satisfies `P`, and did so from a position whose text is not empty.
  abbrev pub IsStart : Type 0 → Outcome G W → Type 0
  IsStart P no_handler = Unit
  IsStart P not_set = Unit
  IsStart P panicked = Unit
  IsStart P (failed _ _) = Unit
  IsStart P (started g w) = P × (is_empty (string g) ≡ false)

  start_from-IsStart : (P : Type 0) (g : Option G) (w : W) → P → IsStart P (start_from string g w)
  start_from-IsStart P none w p = tt
  start_from-IsStart P (some g) w p = elim (Bool-cases (is_empty (string g))) [
    | inl e ↦ rw e tt
    | inr e ↦ rw e (p, e)
  ]

  after_prepare-IsStart :
      (P : Type 0) (r : Option G × W × Option Str) → P → IsStart P (after_prepare string r)
  after_prepare-IsStart P (g, w, some e) p = tt
  after_prepare-IsStart P (g, w, none) p = start_from-IsStart P g w p

  prepared-IsStart :
      (P : Type 0) (compile : Str → Option (Str → Bool)) (prepare : Option (Prepare G W))
      (filter : FilterTable) (tables : Tables) (g : Option G) (w : W)
      → P
      → IsStart P (prepared string compile prepare filter tables g w)
  unfolding prepared
  prepared-IsStart P compile none filter tables g w p = start_from-IsStart P g w p
  prepared-IsStart P compile (some prepare) filter (query_error e) g w p = tt
  prepared-IsStart P compile (some prepare) filter (rows rs) g w p =
      after_prepare-IsStart P (prepare g (matching_tables compile filter rs) w) p

  module _ (compile : Str → Option (Str → Bool)) (prepare : Option (Prepare G W))
      (filter : FilterTable) (tables : Tables) (parse : Str → Option G) (gtid_executed : List Str)
      (w : W) where
    loaded_then-IsStart :
        (init : Option Str) (load : Str × Option Str)
        → IsStart
            ((default_handler ≡ default_handler)
              × (◌≡◌ {A = Option Str} none none)
              × (init ≡ none)
              × (load.1 ≡ none))
            (loaded_then init load w (λ text.
              prepared string compile prepare filter tables (choose parse text gtid_executed) w))
    loaded_then-IsStart (some e) load = tt
    loaded_then-IsStart none (text, some e) = tt
    loaded_then-IsStart none (text, none) =
        prepared-IsStart (_ × _ × _ × _) compile prepare filter tables
          (choose parse text gtid_executed) w (refl, refl, refl, refl)

    -- The replication is started only with the package's own handler, after the canal was made, the
    -- directory of the position file prepared and the file loaded, all without an error, and only
    -- from a position whose text is not empty, whatever `Prepare` does to the position: never from
    -- one that is nil. A file that cannot be opened is loaded as the empty text.
    pub run-IsStart :
        (handler : Handler) (new_error init : Option Str) (load : Str × Option Str)
        → IsStart
            ((handler ≡ default_handler) × (new_error ≡ none) × (init ≡ none) × (load.1 ≡ none))
            (run string parse compile handler new_error init load gtid_executed prepare filter
              tables w)
    unfolding run
    run-IsStart nil_handler new_error init load = tt
    run-IsStart default_handler (some e) init load = tt
    run-IsStart other_handler (some e) init load = tt
    run-IsStart other_handler none init load = tt
    run-IsStart default_handler none init load = loaded_then-IsStart init load
