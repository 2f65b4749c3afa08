-- ===== src/Tests/Engines.antt =====
-- A session after a change of the database and a reset of the engine.
use linkplease_tech_assignme.Base.{◌≡◌, some, [], ◌∷◌, List}
use linkplease_tech_assignme.Config.{Settings, default_settings}
use linkplease_tech_assignme.Database.{
  fresh_globals, get_session_factory, OlderThan, IsOpen, Call, factory_wanted, reset, after_calls,
}
use linkplease_tech_assignme.Database.Sessions.{sessions_avoid_disposed}

abbrev moved : Settings
moved = record default_settings { database_url = "sqlite:///other.db" }

abbrev calls : List Call
calls = factory_wanted default_settings ∷ reset ∷ []

sessions_avoid_disposed_example :
    let got = get_session_factory moved (after_calls fresh_globals calls) in
    (got.1.engine ≡ some got.0) × OlderThan got.0.number got.1.disposed × IsOpen got.1
sessions_avoid_disposed_example = sessions_avoid_disposed calls moved
