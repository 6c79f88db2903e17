-- ===== src/Mysql/ClientTests.antt =====
-- Runs of mysql/client.go and of the DSN of mysql/mysql.go, and their theorems at concrete inputs.
use kit_go.Common.{
  [], false, if◌then◌else◌, List, ◌==◌, is_empty, ◌<◌, ℕ, ◌+◌, ◌≤◌, ◌≡◌, refl, none, some, ◌∷◌,
  ◌++◌, arith, ltb, Str, codes, if◌then◌else◌,
}
use kit_go.Mysql.Client.Paging.{Listed, get_next_page_lem}
use kit_go.Mysql.Client.{failure, get_next_page, bad_conn, Answer, good, bad, Driver, Conn, execute}
use kit_go.Mysql.Client.Retry.{KeptGood, execute-KeptGood, requests-execute}
use kit_go.Mysql.Dsn.{fine, wrong, panics, dsn_error, parse_dsn}
use kit_go.Mysql.Dsn.Parts.{parse_dsn-join, parse_dsn_refuses}

-- A driver whose world is the number of requests so far; dialling always gives the connection 1.
abbrev driver : Driver ℕ ℕ
driver = record { connect = λ w. (w, good 1); close = λ k w. w }

-- Every connection but 1 has gone bad.
abbrev request : ℕ → ℕ → ℕ × Answer Str
request k w = (w + 1, (if ltb 1 k then bad bad_conn else good (codes "rows")))

abbrev always_bad : ℕ → ℕ → ℕ × Answer Str
always_bad k w = (w + 1, bad bad_conn)

abbrev stale : Conn ℕ ℕ
stale = record { conn = some 7; world = 0 }

three_tries : execute driver always_bad stale ≡ (record { conn = none; world = 3 }, bad bad_conn)
unfolding execute
three_tries = refl

execute-KeptGood_example : KeptGood (execute driver always_bad stale)
execute-KeptGood_example = execute-KeptGood driver always_bad stale

requests-execute_example : (execute driver always_bad stale).0.world ≤ 3
requests-execute_example =
    requests-execute driver always_bad (λ w. w) (λ k w. refl) (λ w. refl) (λ k w. refl) stale

parse_dsn-join_run :
    parse_dsn ((codes "root" ++ (b':' ∷ codes "p@s:s")) ++ (b'@' ∷ codes "db:3306"))
    ≡ fine (record { addr = codes "db:3306"; user = codes "root"; password = codes "p@s:s" })
parse_dsn-join_run =
    parse_dsn-join (codes "root") (codes "p@s:s") (codes "db:3306") (omega arith) (omega arith)

bad_dsns : (parse_dsn (codes "db:3306") ≡ wrong dsn_error) × (parse_dsn (codes "root@db") ≡ panics)
bad_dsns =
    parse_dsn_refuses (codes "db:3306") (codes "root") (codes "db") (omega arith) (omega arith)
      (omega arith)

-- Pages that end at a, aa and aaa, and a query that fails after b.
abbrev page : Str → Answer Str
page [] = good (codes "a")
page (x ∷ []) = if x == b'b' then bad (failure (codes "lost")) else good (codes "aa")
page (x ∷ y ∷ []) = good (codes "aaa")
page (x ∷ y ∷ z ∷ s) = good []

abbrev rank : Str → ℕ
rank [] = 0
rank (x ∷ []) = 1
rank (x ∷ y ∷ []) = 2
rank (x ∷ y ∷ z ∷ s) = 3

rank_le : (s : Str) → rank s ≤ 3
rank_le [] = omega arith
rank_le (x ∷ []) = omega arith
rank_le (x ∷ y ∷ []) = omega arith
rank_le (x ∷ y ∷ z ∷ s) = omega arith

page_grows : (id next : Str) → page id ≡ good next → is_empty next ≡ false → rank id < rank next
page_grows [] next e h = rw (← good_eq e) (omega arith)
  where
    good_eq : good (codes "a") ≡ good next → codes "a" ≡ next
    good_eq p = cc
page_grows (x ∷ []) next e h = ground arith
page_grows (x ∷ y ∷ []) next e h = rw (← good_eq e) (omega arith)
  where
    good_eq : good (codes "aaa") ≡ good next → codes "aaa" ≡ next
    good_eq p = cc
page_grows (x ∷ y ∷ z ∷ s) next e h = ground arith

three_pages : get_next_page page 4 [] ≡ some ([] ∷ codes "a" ∷ codes "aa" ∷ codes "aaa" ∷ [])
unfolding get_next_page
three_pages = refl

failed_page : get_next_page page 4 (codes "b") ≡ some []
unfolding get_next_page
failed_page = refl

get_next_page_lem_example :
    (r : List Str) × (get_next_page page 4 [] ≡ some r) × Listed page [] ([] ∷ []) r
get_next_page_lem_example = get_next_page_lem page rank 3 rank_le page_grows []
