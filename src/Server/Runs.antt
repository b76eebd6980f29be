-- ===== src/Server/Runs.antt =====
-- How a run of a server's code goes on after a call of the cache.
use pacon.Base.{◌≡◌, Cmd, done}
use pacon.System.{System}
use pacon.Server.State.{Server, with_cache}

pub with_cache-runs :
    (sys : System) {A : Type 0} (m : Cmd sys.kv.State A) (w : Server sys) (a : A) (t : sys.kv.State)
    → m w.kv ≡ done (a, t)
    → with_cache sys m w ≡ done (a, record w { kv = t })
with_cache-runs sys m w a t ran = cc
