-- ===== src/Mysql/Client.antt =====
-- mysql/client.go: the connection with its three tries. The driver is a parameter: it owns a
-- world `W` that dialling and requests change.
pub mod Retry
pub mod Paging
use kit_go.Common.{
  ℕ, zero, suc, Option, none, some, List, [], ◌∷◌, ◌++◌, if◌then◌else◌, is_empty, Str,
}

-- An error is what `mysql.ErrorEqual` finds equal to `ErrBadConn`, or another.
pub data Error : Type 0 where
  bad_conn : Error
  failure : Str → Error

-- What a request, or dialling, answers.
pub data Answer (A : Type 0) : Type 0 where
  good : A → Answer A
  bad : Error → Answer A

-- The driver: `ConnectWithDialer` with the options of the configuration, and `Close`.
pub record Driver (W K : Type 0) : Type 0 where
  pub connect : W → W × Answer K
  pub close : K → W → W

-- The field `conn`, and the world.
pub record Conn (W K : Type 0) : Type 0 where
  pub conn : Option K
  pub world : W

module _ {W K A : Type 0} (d : Driver W K) (request : K → W → W × Answer A) where
  -- The rest of a round, after the request on the connection `k`; `retry` is the next round. What
  -- a failed request returns beside its error is not looked at.
  after_request : (Conn W K → Conn W K × Answer A) → K → W × Answer A → Conn W K × Answer A
  after_request retry k (w, good a) = (record { conn = some k; world = w }, good a)
  after_request retry k (w, bad (failure s)) =
      (record { conn = some k; world = w }, bad (failure s))
  after_request retry k (w, bad bad_conn) = retry (record { conn = none; world = d.close k w })

  after_connect : (Conn W K → Conn W K × Answer A) → W × Answer K → Conn W K × Answer A
  unfolding after_request
  after_connect retry (w, bad e) = (record { conn = none; world = w }, bad e)
  after_connect retry (w, good k) = after_request retry k (request k w)

  round : (Conn W K → Conn W K × Answer A) → Option K → W → Conn W K × Answer A
  unfolding after_request after_connect
  round retry (some k) w = after_request retry k (request k w)
  round retry none w = after_connect retry (d.connect w)

  -- The loop, with the tries that are left. Only a bad connection leads to another round, so that
  -- is the error when none is left.
  unfoldable pub retry_loop : ℕ → Conn W K → Conn W K × Answer A
  unfolding round
  retry_loop zero c = (c, bad bad_conn)
  retry_loop (suc tries) c = round (retry_loop tries) c.conn c.world

  -- `UseDB`, `Execute` and `ExecuteSelectStreaming`, which differ in the request.
  unfoldable pub execute : Conn W K → Conn W K × Answer A
  unfolding retry_loop
  execute c = retry_loop 3 c

-- `GetNextPage`: `page` is what the query answers for the id after which it looks, which is the
-- text of the one cell, empty for NULL. `none` is a loop cut off by its fuel.
module _ (page : Str → Answer Str) where
  unfoldable pub page_loop : ℕ → Str → List Str → Option (List Str)
  page_loop zero maxid list = none
  page_loop (suc fuel) maxid list = elim (page maxid) [
    | bad e ↦ some []
    | good next ↦
        let rest = page_loop fuel next (list ++ (next ∷ [])) in
        if is_empty next then some list else rest
  ]

  unfoldable pub get_next_page : ℕ → Str → Option (List Str)
  unfolding page_loop
  get_next_page fuel start_id = page_loop fuel start_id (start_id ∷ [])
