-- ===== src/Db/Server/Keeps.antt =====
-- Invariants of actions on the server: a property of the committed store and of the working one.
use sql_observability.Base.{ℕ, Option, none, some, Bool, true, false, if◌then◌else◌}
use sql_observability.Py.Errors.{Error, Result, ok, err}
use sql_observability.Db.Server.State.{Store, Server, World}
use sql_observability.Db.Server.Calls.{
  Action, pure, throw, lift, gets, ◌>>=◌, and_then, settle, outcome, statement, fetch, commit,
  try_except_else,
}

-- `P` of what other connections see, and of what this one sees.
abbrev pub Both : (Store → Type 0) → Server → Type 0
Both P s = P s.committed × P s.working

-- `m` keeps `P`, whether it returns or raises.
pub record Keeps {A : Type 0} (P : Store → Type 0) (m : Action A) : Type 0 where
  pub at : (s : Server) → Both P s → Both P (m s).1

module _ {A : Type 0} {P : Store → Type 0} where
  pub Keeps-pure : (a : A) → Keeps P (pure a)
  unfolding pure
  Keeps-pure a = record { at = λ server kept. kept }

  pub Keeps-gets : (f : Server → A) → Keeps P (gets f)
  unfolding gets
  Keeps-gets f = record { at = λ server kept. kept }

  pub Keeps-throw : (e : Error) → Keeps P (throw {A = A} e)
  unfolding throw
  Keeps-throw e = record { at = λ server kept. kept }

  pub Keeps-lift : (r : Result A) → Keeps P (lift r)
  unfolding lift
  Keeps-lift r = record { at = λ server kept. kept }

  pub Keeps-if : (b : Bool) (m n : Action A) → Keeps P m → Keeps P n → Keeps P (if b then m else n)
  Keeps-if true m n km kn = km
  Keeps-if false m n km kn = kn

module _ {A B : Type 0} {P : Store → Type 0} where
  pub Both-and_then :
      (r : Result A) (f : A → Action B) (s : Server)
      → ((a : A) → Keeps P (f a))
      → Both P s
      → Both P (and_then r f s).1
  Both-and_then (ok a) f s kf h = (kf a).at s h
  Both-and_then (err e) f s kf h = h

  pub Both-settle :
      (r : Result A) (handler : Error → Action B) (rest : A → Action B) (s : Server)
      → ((e : Error) → Keeps P (handler e))
      → ((a : A) → Keeps P (rest a))
      → Both P s
      → Both P (settle r handler rest s).1
  Both-settle (ok a) handler rest s kh kr h = (kr a).at s h
  Both-settle (err e) handler rest s kh kr h = (kh e).at s h

  pub Keeps-bind :
      (first : Action A) (next : A → Action B)
      → Keeps P first
      → ((value : A) → Keeps P (next value))
      → Keeps P (first >>= next)
  unfolding ◌>>=◌
  Keeps-bind first next kept kept_next = record {
    at = λ s both. Both-and_then (first s).0 next (first s).1 kept_next (kept.at s both);
  }

  pub Keeps-try :
      (m : Action A) (handler : Error → Action B) (rest : A → Action B)
      → Keeps P m
      → ((e : Error) → Keeps P (handler e))
      → ((a : A) → Keeps P (rest a))
      → Keeps P (try_except_else m handler rest)
  unfolding try_except_else
  Keeps-try m handler rest km kh kr = record {
    at = λ s h. let (r, s') = m s in Both-settle r handler rest s' kh kr (km.at s h);
  }

Both-outcome :
    (P : Store → Type 0) (o : Option Error) (done failed : Server)
    → Both P done
    → Both P failed
    → Both P (outcome o done failed).1
Both-outcome P none done failed h k = h
Both-outcome P (some e) done failed h k = k

module _ {P : Store → Type 0} (w : World) where
  pub Keeps-statement :
      (f : ℕ → Store → Store)
      → ((now : ℕ) (store : Store) → P store → P (f now store))
      → Keeps P (statement w f)
  unfolding statement
  Keeps-statement f kf = record {
    at = λ s h. Both-outcome P (w.failure s.calls) _ _ (h.0, kf (w.clock s.calls) s.working h.1) h;
  }

  pub Keeps-fetch : Keeps P (fetch w)
  unfolding fetch
  Keeps-fetch = record { at = λ s h. Both-outcome P (w.failure s.calls) _ _ h h }

  pub Keeps-commit : Keeps P (commit w)
  unfolding commit
  Keeps-commit = record { at = λ s h. Both-outcome P (w.failure s.calls) _ _ (h.1, h.1) h }

pub ruleset keeps_rules = (
  Keeps-pure, Keeps-throw, Keeps-lift, Keeps-gets, Keeps-if, Keeps-bind, Keeps-try, Keeps-statement,
  Keeps-fetch, Keeps-commit,
)
