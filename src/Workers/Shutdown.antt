-- ===== src/Workers/Shutdown.antt =====
-- app/workers/manager.py, the tasks that `start` creates and what `stop` does with them, and app/main.py,
-- `lifespan` around its yield. What the tasks do is Workers/Loops.
use linkplease_tech_assignme.Base.{
  ℕ, ◌≡◌, refl, Bool, true, false, Option, none, some, List, [], ◌∷◌, ◌++◌, length,
}
use linkplease_tech_assignme.Config.{Settings}
use linkplease_tech_assignme.Pseudogram.Connection.{
  Client, new_client, aclose, after_requests, aclose-closes_all,
}

pub data Task : Type 0 where
  event_worker dm_worker reconciler maintenance : Task

-- `_stop`, `_tasks` and the client, with the tasks that were cancelled and waited for.
pub record Manager : Type 0 where
  pub stop_set : Bool
  pub tasks : List Task
  pub ended : List Task
  pub client : Client

abbrev pub new_manager : Settings → Manager
new_manager settings = record {
  stop_set = false;
  tasks = [];
  ended = [];
  client = new_client settings;
}

-- The end of `start`.
unfoldable pub start_tasks : Manager → Manager
start_tasks m = record m {
  stop_set = false;
  tasks = event_worker ∷ dm_worker ∷ reconciler ∷ maintenance ∷ [];
}

unfoldable pub stop : Manager → Manager
stop m = record {
  stop_set = true;
  tasks = [];
  ended = m.ended ++ m.tasks;
  client = aclose m.client;
}

-- The requests between the two.
unfoldable pub requests_done : ℕ → Manager → Manager
requests_done n m = record m { client = after_requests n m.client }

unfoldable pub lifespan_if : Bool → Settings → ℕ → Option Manager
unfolding start_tasks stop requests_done
lifespan_if false settings requests = none
lifespan_if true settings requests =
    some (stop (requests_done requests (start_tasks (new_manager settings))))

-- `lifespan` to its end: the manager is left as it is, or there was none.
unfoldable pub lifespan_end : Settings → ℕ → Option Manager
unfolding lifespan_if
lifespan_end settings requests = lifespan_if settings.enable_workers settings requests

-- With the workers enabled, each of the four tasks has ended once, none is left, the stop event is set,
-- and every HTTP client is closed, whatever number of requests was made.
lifespan_end-clean :
    (settings : Settings) (n : ℕ)
    → settings.enable_workers ≡ true
    → (m : Manager) × (lifespan_end settings n ≡ some m)
      × (m.stop_set ≡ true)
      × (m.tasks ≡ [])
      × (m.ended ≡ event_worker ∷ dm_worker ∷ reconciler ∷ maintenance ∷ [])
      × (length m.client.closed ≡ m.client.made)
unfolding lifespan_end lifespan_if stop requests_done start_tasks
lifespan_end-clean settings n h = (
  stop (requests_done n (start_tasks (new_manager settings))),
  rw (h) refl,
  refl,
  refl,
  refl,
  aclose-closes_all (new_client settings) n refl,
)
