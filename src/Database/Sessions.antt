-- ===== src/Database/Sessions.antt =====
-- app/database.py: no session is on an engine that was disposed of.
use linkplease_tech_assignme.Base.{
  ℕ, ◌≤◌, ◌≡◌, refl, Option, none, some, List, [], ◌∷◌, All-map, arith, subst,
}
use linkplease_tech_assignme.Config.{Settings}
use linkplease_tech_assignme.Database.{
  Engine, Globals, fresh_globals, create_engine, use_engine, get_engine, use_factory,
  get_session_factory, reset_engine, dispose, OlderThan, EngineOpen, IsBoundTo, IsOpen, Call,
  engine_wanted, factory_wanted, reset, after_call, after_calls, session_scope, finish, end_session,
}

OlderThan-mono : (m n : ℕ) (es : List Engine) → m ≤ n → OlderThan m es → OlderThan n es
OlderThan-mono m n es le = All-map (λ e h. omega arith) es

-- The engine that a call gives is the cached one afterwards, and the globals keep the invariant.
record Given (settings : Settings) (got : Engine × Globals) : Type 0 where
  cached : got.1.engine ≡ some got.0
  still_open : IsOpen got.1

get_engine-Given :
    (settings : Settings) (g : Globals) → IsOpen g → Given settings (get_engine settings g)
unfolding get_engine use_engine create_engine
get_engine-Given settings g o = by_cache g.engine refl o.engine_open
  where
    unbound : (f : Option Engine) → IsBoundTo none f → (e : Option Engine) → IsBoundTo e f
    unbound none h e = tt
    unbound (some x) h e = absurd (cc)

    by_cache :
        (c : Option Engine)
        → g.engine ≡ c
        → EngineOpen g.disposed g.next c
        → Given settings (use_engine settings g c)
    by_cache none eq h = record {
      cached = refl;
      still_open = record {
        engine_open = (h, omega arith);
        factory_bound =
            unbound g.session_factory
              (subst (λ c. IsBoundTo c g.session_factory) eq o.factory_bound) _;
      };
    }
    by_cache (some e) eq h = record { cached = eq; still_open = o }

get_session_factory-Given :
    (settings : Settings) (g : Globals) → IsOpen g → Given settings (get_session_factory settings g)
unfolding get_session_factory use_factory
get_session_factory-Given settings g o = by_cache g.session_factory o.factory_bound
  where
    by_cache :
        (f : Option Engine) → IsBoundTo g.engine f → Given settings (use_factory settings g f)
    by_cache none h =
        let n = get_engine-Given settings g o in
        record {
          cached = n.cached;
          still_open = record { engine_open = n.still_open.engine_open; factory_bound = n.cached };
        }
    by_cache (some e) h = record { cached = h; still_open = o }

reset_engine-IsOpen : (g : Globals) → IsOpen g → IsOpen (reset_engine g)
unfolding reset_engine dispose
reset_engine-IsOpen g o = record {
  engine_open = by_cache g.engine o.engine_open;
  factory_bound = tt;
}
  where
    by_cache : (c : Option Engine) → EngineOpen g.disposed g.next c → OlderThan g.next (dispose g c)
    by_cache none h = h
    by_cache (some e) h = (h.1, OlderThan-mono e.number g.next g.disposed (omega (arith, h.1)) h.0)

after_call-IsOpen : (g : Globals) (c : Call) → IsOpen g → IsOpen (after_call g c)
after_call-IsOpen g (engine_wanted settings) o = (get_engine-Given settings g o).still_open
after_call-IsOpen g (factory_wanted settings) o =
    (get_session_factory-Given settings g o).still_open
after_call-IsOpen g reset o = reset_engine-IsOpen g o

after_calls-IsOpen : (g : Globals) (cs : List Call) → IsOpen g → IsOpen (after_calls g cs)
after_calls-IsOpen g [] o = o
after_calls-IsOpen g (c ∷ cs) o = after_calls-IsOpen (after_call g c) cs (after_call-IsOpen g c o)

fresh_globals-IsOpen : IsOpen fresh_globals
fresh_globals-IsOpen = record { engine_open = tt; factory_bound = tt }

-- Every engine that was disposed of is older than the one that a call gives.
Given-newer :
    (settings : Settings) (got : Engine × Globals)
    → Given settings got
    → OlderThan got.0.number got.1.disposed
Given-newer settings got n =
    (subst (EngineOpen got.1.disposed got.1.next) n.cached n.still_open.engine_open).0

-- After any calls from the start of the process on, a session is on the cached engine, which is newer
-- than every engine that was disposed of, so none of those; and the calls go on as safely after it.
pub sessions_avoid_disposed :
    (cs : List Call) (settings : Settings)
    → let got = get_session_factory settings (after_calls fresh_globals cs) in
      (got.1.engine ≡ some got.0) × OlderThan got.0.number got.1.disposed × IsOpen got.1
sessions_avoid_disposed cs settings =
    let n =
      get_session_factory-Given settings (after_calls fresh_globals cs)
        (after_calls-IsOpen fresh_globals cs fresh_globals-IsOpen) in
    (n.cached, Given-newer settings _ n, n.still_open)

-- A session without a result, since its body or its commit raised, leaves the database as it was.
session_scope-atomic :
    {S A : Type 0}
    → (settings : Settings) (body : Engine → S → S × Option A) (commit : S → Option S) (g : Globals)
      (before : S)
    → (session_scope settings body commit g before).1.1 ≡ none
    → (session_scope settings body commit g before).1.0 ≡ before
unfolding session_scope finish
session_scope-atomic {S = S} {A = A} settings body commit g before =
    let out = body (get_session_factory settings g).0 before in by_result out.0 out.1
  where
    by_commit :
        (old : S) (c : Option S) (a : A)
        → (end_session old c a).1 ≡ none
        → (end_session old c a).0 ≡ old
    by_commit old none a h = refl
    by_commit old (some s) a h = absurd (cc)

    by_result :
        (written : S) (r : Option A)
        → (finish commit before written r).1 ≡ none
        → (finish commit before written r).0 ≡ before
    by_result written none h = refl
    by_result written (some a) h = by_commit before (commit written) a h
