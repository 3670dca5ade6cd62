-- ===== src/Store/Update/Frame.antt =====
-- internal/gateway/store/manifest.go: the files that Update can reach.
use file_pubsub.Base.{String, ◌≡◌, ap, [], Result}
use file_pubsub.Store.Manifest.{Manifest}
use file_pubsub.Store.World.{World, Env, IsAlone}
use file_pubsub.Store.ManifestStore.{Mutate}
use file_pubsub.Store.Update.{update}
use file_pubsub.Store.Update.Outcome.{Outcome, update_lem}

-- A world without the manifests, their locks and the count of operations.
abbrev pub but_manifests : World → World
but_manifests w = record w { manifests = []; locks = []; ops = 0 }

abbrev drop_manifests : World → World
drop_manifests w = record w { manifests = [] }

but_manifests-Outcome :
    (id : String) (mutate : Mutate) (w : World) (r : Result Manifest) (w' : World)
    → Outcome id mutate w r w'
    → but_manifests w' ≡ but_manifests w
but_manifests-Outcome id mutate w r w' (Outcome.failed e f same) = ap drop_manifests same
but_manifests-Outcome id mutate w r w' (Outcome.skipped t base h f g same) = ap drop_manifests same
but_manifests-Outcome id mutate w r w' (Outcome.committed t base m h f g same) =
    ap drop_manifests same

pub but_manifests-update :
    (env : Env)
    → IsAlone env
    → (id : String) (mutate : Mutate) (w : World)
    → but_manifests (update env id mutate w).1 ≡ but_manifests w
but_manifests-update env alone id mutate w =
    but_manifests-Outcome id mutate w (update env id mutate w).0 (update env id mutate w).1
      (update_lem env alone id mutate w)
