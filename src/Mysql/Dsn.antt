-- ===== src/Mysql/Dsn.antt =====
-- mysql/mysql.go: `ParseDsn` and `ParseConfDSN`.
pub mod Parts
use kit_go.Common.{◌==◌, ℕ, Bool, Option, none, some, List, [], ◌∷◌, if◌then◌else◌, Str, codes}

-- An error, a Go panic, or the value.
pub data Parsed (A : Type 0) : Type 0 where
  fine : A → Parsed A
  wrong : Str → Parsed A
  panics : Parsed A

pub record Account : Type 0 where
  pub addr : Str
  pub user : Str
  pub password : Str

-- A text before and after the first place of a byte (`strings.Index`).
unfoldable pub cut_first : ℕ → Str → Option (Str × Str)
cut_first c [] = none
cut_first c (x ∷ s) =
    let rest = cut_first c s in
    if x == c then some ([], s) else elim rest [ none ↦ none | some (a, b) ↦ some (x ∷ a, b) ]

-- And of its last place (`strings.LastIndex`).
unfoldable pub cut_last : ℕ → Str → Option (Str × Str)
cut_last c [] = none
cut_last c (x ∷ s) =
    let rest = cut_last c s in
    elim rest [ some (a, b) ↦ some (x ∷ a, b) | none ↦ if x == c then some ([], s) else none ]

parse_account : Str → Option (Str × Str) → Parsed Account
parse_account address none = panics
parse_account address (some (user, password)) =
    fine (record { addr = address; user = user; password = password })

abbrev pub dsn_error : Str
dsn_error = codes "dsn format error: user:password@ip:port"

parse_parts : Option (Str × Str) → Parsed Account
unfolding parse_account
parse_parts none = wrong dsn_error
parse_parts (some (account, address)) = parse_account address (cut_first b':' account)

-- Without a colon in the account the slice bound is -1, which panics.
unfoldable pub parse_dsn : Str → Parsed Account
unfolding parse_parts
parse_dsn dsn = parse_parts (cut_last b'@' dsn)
