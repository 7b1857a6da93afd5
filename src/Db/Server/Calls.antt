-- ===== src/Db/Server/Calls.antt =====
-- Calls that change the server and may raise: what was done before an exception stays done.
use Prim.Native.Nat.{ℕ, suc}
use sql_observability.Base.{Option, none, some, ltb, if◌then◌else◌}
use sql_observability.Py.Errors.{Error, Result, ok, err}
use sql_observability.Db.Server.State.{Store, Server, World}

abbrev pub Action : Type 0 → Type 0
Action A = Server → Result A × Server

module _ {A : Type 0} where
  unfoldable pub pure : A → Action A
  pure a s = (ok a, s)

  unfoldable pub throw : Error → Action A
  throw e s = (err e, s)

  unfoldable pub lift : Result A → Action A
  lift r s = (r, s)

  unfoldable pub gets : (Server → A) → Action A
  gets f s = (ok (f s), s)

abbrev pub outcome : Option Error → Server → Server → Result (Unit {0}) × Server
outcome none done failed = (ok tt, done)
outcome (some e) done failed = (err e, failed)

-- A call of the server, which the world may fail: then the server does nothing.
attempt : World → (ℕ → Server → Server) → Action (Unit {0})
attempt w f s =
    let s' : Server = record s { calls = suc s.calls } in
    outcome (w.failure s.calls) (f s.calls s') s'

-- `cursor.execute` of a statement that changes tables, at the time of the server's clock
unfoldable pub statement : World → (ℕ → Store → Store) → Action (Unit {0})
unfolding attempt
statement w f = attempt w (λ n s. record s { working = f (w.clock n) s.working })

-- `cursor.fetchone`, `cursor.fetchall`, and the execution of a query that only reads
unfoldable pub fetch : World → Action (Unit {0})
unfolding attempt
fetch w = attempt w (λ n s. s)

-- `conn.commit`
unfoldable pub commit : World → Action (Unit {0})
unfolding attempt
commit w = attempt w (λ n s. record s { committed = s.working })

abbrev pub highest : ℕ → ℕ → ℕ
highest m n = if ltb m n then n else m

-- The store that another one is given up for: `run_id` is an IDENTITY column, whose counter does not
-- go back.
abbrev pub restore : Store → Store → Store
restore kept given_up = record kept { next_id = highest kept.next_id given_up.next_id }

-- `conn.close`: what was not committed is gone, but for the counter
abbrev pub roll_back : Server → Server
roll_back s = record s {
  committed = restore s.committed s.working;
  working = restore s.committed s.working;
}

module _ {A B : Type 0} where
  abbrev pub and_then : Result A → (A → Action B) → Action B
  and_then (ok a) f s = f a s
  and_then (err e) f s = (err e, s)

  infixl 5 ◌>>=◌ ◌>>◌
  -- Opening this opens the actions above.
  unfoldable pub ◌>>=◌ : Action A → (A → Action B) → Action B
  unfolding pure throw lift gets statement fetch commit
  ◌>>=◌ m f s = let (r, s') = m s in and_then r f s'

  abbrev pub ◌>>◌ : Action A → Action B → Action B
  m >> n = m >>= λ _. n

  abbrev pub settle : Result A → (Error → Action B) → (A → Action B) → Action B
  settle (ok a) handler rest s = rest a s
  settle (err e) handler rest s = handler e s

  -- `try: body` / `except Exception as exc: handler(exc)` / `else: rest`
  unfoldable pub try_except_else : Action A → (Error → Action B) → (A → Action B) → Action B
  try_except_else body handler rest s = let (r, s') = body s in settle r handler rest s'
