-- ===== src/Wecom/Tests.antt =====
-- Runs of wecom/wecom.go, and its theorems at concrete inputs.
use kit_go.Common.{◌≡◌, refl, true, false, [], ◌∷◌, codes, Str, pos}
use kit_go.Wecom.Token.{TokenAnswer, new_refresher, refresh_all, new_returns, refresh_refused}

abbrev answer_of : Str → TokenAnswer
answer_of token = record { access_token = token; expires_in = pos 7200 }

first_token : (refresh_all (answer_of (codes "t") ∷ []) new_refresher).access_token ≡ codes "t"
unfolding refresh_all
first_token = refl

refresh_refused_run :
    ((refresh_all (answer_of [] ∷ answer_of (codes "u") ∷ []) new_refresher).returned ≡ true)
    × (new_returns (refresh_all (answer_of [] ∷ answer_of (codes "u") ∷ []) new_refresher) ≡ false)
refresh_refused_run = refresh_refused (answer_of []) (answer_of (codes "u") ∷ []) refl
