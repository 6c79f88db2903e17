-- ===== src/Mysql/Client/Retry.antt =====
-- The tries of mysql/client.go: how many there are, and what they leave.
use kit_go.Common.{ℕ, zero, suc, ◌+◌, ◌≤◌, ◌≡◌, refl, Option, none, some, arith}
use kit_go.Mysql.Client.{
  bad_conn, failure, Answer, good, bad, Driver, Conn, after_request, after_connect, round,
  retry_loop, execute,
}

-- What may be left behind: a connection only where the answer is not that it is bad.
abbrev pub KeptGood : {W K A : Type 0} → Conn W K × Answer A → Type 0
KeptGood (c, good a) = Unit
KeptGood (c, bad (failure s)) = Unit
KeptGood (c, bad bad_conn) = c.conn ≡ none

module _ {W K A : Type 0} (d : Driver W K) (request : K → W → W × Answer A) where
  module _ (retry : Conn W K → Conn W K × Answer A)
      (later : (w : W) → KeptGood (retry (record { conn = none; world = w }))) where
    after_request-KeptGood :
        (k : K) (r : W × Answer A) → KeptGood (after_request d request retry k r)
    unfolding after_request
    after_request-KeptGood k (w, good a) = tt
    after_request-KeptGood k (w, bad (failure s)) = tt
    after_request-KeptGood k (w, bad bad_conn) = later (d.close k w)

    after_connect-KeptGood : (r : W × Answer K) → KeptGood (after_connect d request retry r)
    unfolding after_connect
    after_connect-KeptGood (w, good k) = after_request-KeptGood k (request k w)
    after_connect-KeptGood (w, bad (failure s)) = tt
    after_connect-KeptGood (w, bad bad_conn) = refl

    round-KeptGood : (o : Option K) (w : W) → KeptGood (round d request retry o w)
    unfolding round
    round-KeptGood (some k) w = after_request-KeptGood k (request k w)
    round-KeptGood none w = after_connect-KeptGood (d.connect w)

  retry_loop-KeptGood :
      (tries : ℕ) (w : W)
      → KeptGood (retry_loop d request tries (record { conn = none; world = w }))
  unfolding retry_loop
  retry_loop-KeptGood zero w = refl
  retry_loop-KeptGood (suc tries) w =
      round-KeptGood (retry_loop d request tries) (retry_loop-KeptGood tries) none w

  -- However the driver behaves, a call that answers a bad connection keeps none, so that the next
  -- call dials again.
  pub execute-KeptGood : (c : Conn W K) → KeptGood (execute d request c)
  unfolding execute retry_loop
  execute-KeptGood c =
      round-KeptGood (retry_loop d request 2) (retry_loop-KeptGood 2) c.conn c.world

  -- A measure of the world that a request raises by one, and dialling and closing leave alone.
  module _ (requests : W → ℕ)
      (by_request : (k : K) (w : W) → requests (request k w).0 ≡ requests w + 1)
      (by_connect : (w : W) → requests (d.connect w).0 ≡ requests w)
      (by_close : (k : K) (w : W) → requests (d.close k w) ≡ requests w) where
    module _ (n : ℕ) (retry : Conn W K → Conn W K × Answer A)
        (later : (c : Conn W K) → requests (retry c).0.world ≤ requests c.world + n) where
      requests-after_request :
          (k : K) (r : W × Answer A)
          → requests (after_request d request retry k r).0.world ≤ requests r.0 + n
      unfolding after_request
      requests-after_request k (w, good a) = omega arith
      requests-after_request k (w, bad (failure s)) = omega arith
      requests-after_request k (w, bad bad_conn) =
          omega (arith, later (record { conn = none; world = d.close k w }), by_close k w)

      requests-after_connect :
          (r : W × Answer K)
          → requests (after_connect d request retry r).0.world ≤ requests r.0 + (n + 1)
      unfolding after_connect
      requests-after_connect (w, bad e) = omega arith
      requests-after_connect (w, good k) =
          omega (arith, requests-after_request k (request k w), by_request k w)

      requests-round :
          (o : Option K) (w : W)
          → requests (round d request retry o w).0.world ≤ requests w + (n + 1)
      unfolding round
      requests-round (some k) w =
          omega (arith, requests-after_request k (request k w), by_request k w)
      requests-round none w = omega (arith, requests-after_connect (d.connect w), by_connect w)

    requests-retry_loop :
        (tries : ℕ) (c : Conn W K)
        → requests (retry_loop d request tries c).0.world ≤ requests c.world + tries
    unfolding retry_loop
    requests-retry_loop zero c = omega arith
    requests-retry_loop (suc tries) c = omega (
      arith,
      requests-round tries (retry_loop d request tries) (requests-retry_loop tries) c.conn c.world,
    )

    -- A call makes at most three requests, by any count of requests that dialling and closing
    -- leave alone.
    pub requests-execute :
        (c : Conn W K) → requests (execute d request c).0.world ≤ requests c.world + 3
    unfolding execute
    requests-execute c = requests-retry_loop 3 c

  -- A connection that has gone bad is closed and replaced: if dialling then gives one whose
  -- request is answered, that answer is the call's and the new connection is kept.
  pub execute_recovers :
      (k k' : K) (w w' : W) (a : A)
      → request k w ≡ (w', bad bad_conn)
      → (u v : W) → d.connect (d.close k w') ≡ (u, good k')
      → request k' u ≡ (v, good a)
      → execute d request (record { conn = some k; world = w })
        ≡ (record { conn = some k'; world = v }, good a)
  unfolding execute retry_loop round after_connect after_request
  execute_recovers k k' w w' a e u v e' e″ = rw (e, e', e″) refl
