-- ===== src/Wecom/Token.antt =====
-- wecom/wecom.go: `refreshToken`, the loop that fetches the access token, and `New`, which waits
-- for it. What the server answers to each request is a list.
use kit_go.Common.{
  ℕ, zero, suc, ◌==◌, ◌≡◌, refl, Bool, true, false, List, [], ◌∷◌, if◌then◌else◌, is_empty, Str, ℤ,
  pos, ltb_ℤ,
}

-- The answer to `gettoken`; a request that fails leaves it at its zero values.
pub record TokenAnswer : Type 0 where
  pub access_token : Str
  pub expires_in : ℤ

-- The client's token, the counter of the wait group, the seconds of which the next tick comes a
-- minute early, and how the loop has ended.
pub record Refresher : Type 0 where
  pub access_token : Str
  pub wg : ℕ
  pub expires_in : ℤ
  pub returned : Bool
  pub panicked : Bool

-- `New` before it waits: the counter is 1, and the first tick comes at once.
abbrev pub new_refresher : Refresher
new_refresher = record {
  access_token = [];
  wg = 1;
  expires_in = pos 0;
  returned = false;
  panicked = false;
}

-- `wg.Done`, which panics at 0.
abbrev pub wg_done : ℕ → Refresher → Refresher
wg_done zero r = record r { panicked = true }
wg_done (suc n) r = record r { wg = n }

-- `ticker.Reset` panics on an interval that is not positive.
abbrev pub reset : ℤ → Refresher → Refresher
reset expires_in r =
    if ltb_ℤ (pos 60) expires_in
    then record r { expires_in = expires_in }
    else record r { panicked = true }

abbrev pub has_ended : Refresher → Bool
has_ended r = if r.returned then true else r.panicked

-- A round of the loop on a tick.
unfoldable pub refresh : TokenAnswer → Refresher → Refresher
refresh a r =
    let done = wg_done r.wg (record r { access_token = a.access_token }) in
    let next = reset a.expires_in done in
    if is_empty a.access_token
    then record r { returned = true }
    else (if done.panicked then done else next)

-- The rounds until the loop ends or the answers do.
unfoldable pub refresh_all : List TokenAnswer → Refresher → Refresher
unfolding refresh
refresh_all [] r = r
refresh_all (a ∷ as') r =
    let rest = refresh_all as' (refresh a r) in if has_ended r then r else rest

-- `New` returns once the counter is 0.
abbrev pub new_returns : Refresher → Bool
new_returns r = r.wg == 0

ended-refresh_all :
    (as' : List TokenAnswer) (r : Refresher) → has_ended r ≡ true → refresh_all as' r ≡ r
unfolding refresh_all
ended-refresh_all [] r h = refl
ended-refresh_all (a ∷ as') r h = rw h refl

-- The refresher after a first token.
abbrev pub renewed : TokenAnswer → Refresher
renewed a = record new_refresher {
  access_token = a.access_token;
  wg = 0;
  expires_in = a.expires_in;
}

-- The refresher after a second token.
abbrev pub stuck : TokenAnswer → TokenAnswer → Refresher
stuck a b = record (renewed a) { access_token = b.access_token; panicked = true }

-- Where the first answer has no token the loop has returned with the counter at 1, so that `New`
-- waits for good, whatever would be answered after it.
pub refresh_refused :
    (a : TokenAnswer) (as' : List TokenAnswer)
    → is_empty a.access_token ≡ true
    → (refresh_all (a ∷ as') new_refresher).returned ≡ true
      × (new_returns (refresh_all (a ∷ as') new_refresher) ≡ false)
unfolding refresh_all refresh
refresh_refused a as' h =
    let stopped : refresh a new_refresher ≡ record new_refresher { returned = true } = rw h refl in
    let ended = ended-refresh_all as' (record new_refresher { returned = true }) refl in
    (rw (stopped, ended) refl, rw (stopped, ended) refl)
