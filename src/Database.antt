-- ===== src/Database.antt =====
-- app/database.py: the cached engine, the sessions on it and their transactions, and the cache of the
-- settings of app/config.py. Engines are told apart by their numbers.
pub mod Sessions
use linkplease_tech_assignme.Base.{
  ℕ, suc, ◌<◌, ◌≡◌, refl, Bool, true, false, String, Option, none, some, List, [], ◌∷◌, All, codes,
  is_prefix, arith, if◌then◌else◌,
}
use linkplease_tech_assignme.Config.{Settings}

-- `get_settings` with its cache, where `Settings()` gives `fresh`.
unfoldable pub get_settings : Settings → Option Settings → Settings × Option Settings
get_settings fresh none = (fresh, some fresh)
get_settings fresh (some kept) = (kept, some kept)

pub record ConnectArgs : Type 0 where
  pub check_same_thread : Bool
  pub timeout : ℕ

pub record Engine : Type 0 where
  pub number : ℕ
  pub url : String
  pub connect_args : Option ConnectArgs
  -- What it executes on each new connection.
  pub pragmas : List String

-- The globals, the engines that were disposed of, and the number of the next one.
pub record Globals : Type 0 where
  pub engine : Option Engine
  -- The engine that the session factory is bound to.
  pub session_factory : Option Engine
  pub disposed : List Engine
  pub next : ℕ

abbrev pub fresh_globals : Globals
fresh_globals = record { engine = none; session_factory = none; disposed = []; next = 0 }

-- `url.startswith("sqlite")`
abbrev pub is_sqlite : String → Bool
is_sqlite url = is_prefix (codes "sqlite") (codes url)

-- `_create_engine`
unfoldable pub create_engine : ℕ → String → Engine
create_engine number url = record {
  number = number;
  url = url;
  connect_args =
      if is_sqlite url then some (record { check_same_thread = false; timeout = 30 }) else none;
  pragmas =
      if is_sqlite url
      then "PRAGMA journal_mode=WAL" ∷ "PRAGMA synchronous=NORMAL" ∷ "PRAGMA foreign_keys=ON"
        ∷ "PRAGMA busy_timeout=30000" ∷ []
      else [];
}

unfoldable pub use_engine : Settings → Globals → Option Engine → Engine × Globals
use_engine settings g none =
    let e = create_engine g.next settings.database_url in
    (e, record g { engine = some e; next = suc g.next })
use_engine settings g (some e) = (e, g)

unfoldable pub get_engine : Settings → Globals → Engine × Globals
unfolding use_engine
get_engine settings g = use_engine settings g g.engine

unfoldable pub use_factory : Settings → Globals → Option Engine → Engine × Globals
unfolding get_engine
use_factory settings g none =
    let (e, g') = get_engine settings g in (e, record g' { session_factory = some e })
use_factory settings g (some e) = (e, g)

unfoldable pub get_session_factory : Settings → Globals → Engine × Globals
unfolding use_factory
get_session_factory settings g = use_factory settings g g.session_factory

unfoldable pub dispose : Globals → Option Engine → List Engine
dispose g none = g.disposed
dispose g (some e) = e ∷ g.disposed

unfoldable pub reset_engine : Globals → Globals
unfolding dispose
reset_engine g = record g { engine = none; session_factory = none; disposed = dispose g g.engine }

-- All of the engines were made before the one of number `n`.
abbrev pub OlderThan : ℕ → List Engine → Type 0
OlderThan n = All (λ (e : Engine). e.number < n)

-- The cached engine, if there is one, was made after all that were disposed of.
abbrev pub EngineOpen : List Engine → ℕ → Option Engine → Type 0
EngineOpen disposed next none = OlderThan next disposed
EngineOpen disposed next (some e) = OlderThan e.number disposed × (e.number < next)

-- The session factory, if there is one, is bound to the cached engine.
abbrev pub IsBoundTo : Option Engine → Option Engine → Type 0
IsBoundTo engine none = Unit {0}
IsBoundTo engine (some e) = engine ≡ some e

pub record IsOpen (g : Globals) : Type 0 where
  pub engine_open : EngineOpen g.disposed g.next g.engine
  pub factory_bound : IsBoundTo g.engine g.session_factory

-- The calls that touch the globals.
pub data Call : Type 0 where
  engine_wanted : Settings → Call
  factory_wanted : Settings → Call
  reset : Call

abbrev pub after_call : Globals → Call → Globals
after_call g (engine_wanted settings) = (get_engine settings g).1
after_call g (factory_wanted settings) = (get_session_factory settings g).1
after_call g reset = reset_engine g

abbrev pub after_calls : Globals → List Call → Globals
after_calls g [] = g
after_calls g (c ∷ cs) = after_calls (after_call g c) cs

-- What the database is after a session, from what it was before and what `commit` makes of it, if that
-- does not raise; and before that, from what the body leaves with its result, or without one if it
-- raises.
abbrev pub end_session : {S A : Type 0} → S → Option S → A → S × Option A
end_session before none a = (before, none)
end_session before (some committed) a = (committed, some a)

unfoldable pub finish : {S A : Type 0} → (S → Option S) → S → S → Option A → S × Option A
finish commit before written none = (before, none)
finish commit before written (some a) = end_session before (commit written) a

-- `session_scope` around `body`, which gets the engine of its session; `get_db` too.
unfoldable pub session_scope :
    {S A : Type 0}
    → Settings
    → (Engine → S → S × Option A)
    → (S → Option S)
    → Globals
    → S
    → Globals × (S × Option A)
unfolding get_session_factory finish
session_scope settings body commit g before =
    let (e, g') = get_session_factory settings g in
    let (written, result) = body e before in (g', finish commit before written result)
