-- ===== src/Mysql/Dsn/Parts.antt =====
-- Which texts `ParseDsn` of mysql/mysql.go takes apart, and how.
use kit_go.Common.{ℕ, ◌≡◌, refl, none, some, [], ◌∷◌, ◌++◌, arith, Str, Free}
use kit_go.Mysql.Dsn.{fine, wrong, panics, cut_first, cut_last, dsn_error, parse_dsn}

cut_first-append : (c : ℕ) (s t : Str) → Free c s → cut_first c (s ++ (c ∷ t)) ≡ some (s, t)
unfolding cut_first
cut_first-append c [] t h = ground arith
cut_first-append c (x ∷ s) t h = ground (arith, cut_first-append c s t h.1)

cut_last-Free : (c : ℕ) (s : Str) → Free c s → cut_last c s ≡ none
unfolding cut_last
cut_last-Free c [] h = refl
cut_last-Free c (x ∷ s) h = ground (arith, cut_last-Free c s h.1)

cut_last-append : (c : ℕ) (s t : Str) → Free c t → cut_last c (s ++ (c ∷ t)) ≡ some (s, t)
unfolding cut_last
cut_last-append c [] t h = ground (arith, cut_last-Free c t h)
cut_last-append c (x ∷ s) t h = ground (arith, cut_last-append c s t h)

cut_first-Free : (c : ℕ) (s : Str) → Free c s → cut_first c s ≡ none
unfolding cut_first
cut_first-Free c [] h = refl
cut_first-Free c (x ∷ s) h = ground (arith, cut_first-Free c s h.1)

-- A user without `:`, any password, also one with `:` and `@`, and an address without `@`,
-- written as `user:password@address`, are what `ParseDsn` returns.
pub parse_dsn-join :
    (user password address : Str)
    → Free b':' user
    → Free b'@' address
    → parse_dsn ((user ++ (b':' ∷ password)) ++ (b'@' ∷ address))
      ≡ fine (record { addr = address; user = user; password = password })
unfolding parse_dsn
parse_dsn-join user password address h k = rw (
  cut_last-append b'@' (user ++ (b':' ∷ password)) address k,
  cut_first-append b':' user password h,
)

-- A text without `@` is refused with an error, and a text whose part before the last `@` has no
-- `:` makes `ParseDsn` panic.
pub parse_dsn_refuses :
    (s account address : Str)
    → Free b'@' s
    → Free b':' account
    → Free b'@' address
    → (parse_dsn s ≡ wrong dsn_error) × (parse_dsn (account ++ (b'@' ∷ address)) ≡ panics)
unfolding parse_dsn
parse_dsn_refuses s account address h k l = (
  rw (cut_last-Free b'@' s h),
  rw (cut_last-append b'@' account address l, cut_first-Free b':' account k),
)
