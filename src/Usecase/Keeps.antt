-- ===== src/Usecase/Keeps.antt =====
-- internal/usecase: what a stage does to data_dir/lock, which only the daemon writes.
pub mod Files
pub mod Stages
pub mod Retrying
pub mod Collecting
pub mod Passes
pub mod Cycle
use file_pubsub.Base.{◌≡◌, String, Result, List, refl, ok, err, ◌∙◌}
use file_pubsub.Source.{Connector}
use file_pubsub.Store.World.{World, continue}

-- The operation leaves the lock file as it was.
abbrev pub Keeps {ℓ} : {A : Type ℓ} → (World → A × World) → Type 0
Keeps f = (w : World) → (f w).1.lease ≡ w.lease

-- A step of a stage leaves the lock file as it was.
abbrev pub Leaves : (World → World) → Type 0
Leaves f = (w : World) → (f w).lease ≡ w.lease

-- A connector's operations leave the lock file as it was.
pub record IsApart (conn : Connector) : Type 0 where
  pub list : Keeps conn.list
  pub fetch : (name : String) → Keeps (conn.fetch name)
  pub remove : (name : String) → Keeps (conn.remove name)

pub Keeps-continue {ℓ κ} :
    {A : Type ℓ} {B : Type κ} (q : Result A × World) (f : A → World → Result B × World)
    → ((a : A) → Keeps (f a))
    → (continue q.0 f q.1).1.lease ≡ q.1.lease
Keeps-continue (ok a, v) f k = k a v
Keeps-continue (err e, v) f k = refl
