-- ===== src/CanalV1/ParseStmt/Acl.antt =====
-- Which actions the filter of canal/v1/parseStmt.go lets through.
use kit_go.Common.{ℕ, ◌≡◌, false, not, ◌&&◌, ◌||◌, List, [], ◌∷◌, arith, is_empty}
use kit_go.CanalV1.ParseStmt.{Parserx, DdlAcl, has_action, ddl_filter}

-- An action passes if both lists are empty, or if it is to be included and not to be excluded.
pub ddl_filter_lem :
    (p : Parserx) (a : DdlAcl)
    → ddl_filter p a ≡ (
        (is_empty a.include && is_empty a.exclude)
        || (has_action a.include p.ddlaction && not (has_action a.exclude p.ddlaction)))
unfolding ddl_filter
ddl_filter_lem p a = ground arith

-- With actions to exclude and none to include, no action passes, whether it is excluded or not.
pub ddl_filter_exclude_only :
    (p : Parserx) (x : ℕ) (xs : List ℕ)
    → ddl_filter p (record { include = []; exclude = x ∷ xs }) ≡ false
ddl_filter_exclude_only p x xs = ddl_filter_lem p (record { include = []; exclude = x ∷ xs })
