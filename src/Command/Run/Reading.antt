-- ===== src/Command/Run/Reading.antt =====
-- cmd/file-pubsub/status.go and main.go: the commands that only read.
use file_pubsub.Base.{
  String, ◌≡◌, refl, ◌∙◌, arith, false, List, [], ◌∷◌, ◌++◌, ap, length, string_eq, Result, ok, err,
  inl, inr,
}
use file_pubsub.Base.Dict.{Dict}
use file_pubsub.Config.{Config, Topic}
use file_pubsub.Store.World.{World, Env, DlqMeta, next, continue, pure, Io}
use file_pubsub.Store.ManifestStore.{list_manifests}
use file_pubsub.Store.ManifestStore.Frame.{but_ops, but_ops-list_manifests}
use file_pubsub.Usecase.Status.{
  StatusFilter, StatusRow, manifest_rows, status_rows, read_metas, topic_metas, sort_metas,
  dlq_topic, dlq_topics, dlq_list,
}
use file_pubsub.Command.Flags.{flag_value}
use file_pubsub.Config.Load.{Host}
use file_pubsub.Command.Run.Configured.{with_config_cases}
use file_pubsub.Command.Run.{
  Outside, Outcome, with_config, cmd_status, cmd_config_validate, show_status, status_flags, exit,
  exit_ok, validated, count_subscriptions, listed, tabled, new_pipeline,
}

-- The operation changes nothing but the count of operations.
abbrev Reads {ℓ} : {A : Type ℓ} → Io A → Type 0
Reads f = (w : World) → but_ops (f w).1 ≡ but_ops w

Reads-continue {ℓ κ} :
    {A : Type ℓ} {B : Type κ} (q : Result A × World) (f : A → Io B)
    → ((a : A) → Reads (f a))
    → but_ops (continue q.0 f q.1).1 ≡ but_ops q.1
Reads-continue (ok a, v) f h = h a v
Reads-continue (err e, v) f h = refl

with_config-Reads :
    (host : Host) (defined args : List String) (w : World)
    (body : Dict String String → Config → Outcome)
    → ((values : Dict String String) (cfg : Config) → but_ops (body values cfg).world ≡ but_ops w)
    → but_ops (with_config host defined args w body).world ≡ but_ops w
with_config-Reads host defined args w body h = elim (with_config_cases host defined args w body) [
  | inl e ↦ ap (λ (r : Outcome). but_ops r.world) e
  | inr (values, cfg, e) ↦ ap (λ (r : Outcome). but_ops r.world) e ∙ h values cfg
]

module _ (env : Env) where
  read_metas-Reads : (ms : List DlqMeta) → Reads (read_metas env ms)
  unfolding read_metas
  read_metas-Reads [] w = refl
  read_metas-Reads (m ∷ ms) w = ground (
    arith,
    read_metas-Reads ms (next w),
    Reads-continue (read_metas env ms (next w)) (λ rest. pure (m ∷ rest)) (λ rest v. refl),
  )

  dlq_topic-Reads : (topic : String) → Reads (dlq_topic env topic)
  unfolding dlq_topic
  dlq_topic-Reads topic w =
      let ms = topic_metas topic w.dlq_meta in
      ground (
        arith,
        read_metas-Reads ms (next w),
        Reads-continue (read_metas env ms (next w)) (λ rest. pure (sort_metas rest))
            (λ rest v. refl),
      )

  dlq_topics-Reads : (filter : String) (ts : List Topic) → Reads (dlq_topics env filter ts)
  unfolding dlq_topics
  dlq_topics-Reads filter [] w = refl
  dlq_topics-Reads filter (t ∷ ts) w = ground (
    arith,
    dlq_topics-Reads filter ts w,
    dlq_topic-Reads t.name w,
    Reads-continue (dlq_topic env t.name w)
        (λ ms v.
          continue (dlq_topics env filter ts v).0 (λ rest. pure (ms ++ rest))
            (dlq_topics env filter ts v).1)
        (λ ms v.
          Reads-continue (dlq_topics env filter ts v) (λ rest. pure (ms ++ rest)) (λ rest u. refl)
          ∙ dlq_topics-Reads filter ts v),
  )

  status_rows-Reads : (f : StatusFilter) → Reads (status_rows env f)
  unfolding status_rows
  status_rows-Reads f w =
      Reads-continue (list_manifests env w) (λ ms. pure (manifest_rows f ms)) (λ ms v. refl)
      ∙ but_ops-list_manifests env w

  listed-Reads : (q : Result (List DlqMeta) × World) → but_ops (listed q).world ≡ but_ops q.1
  listed-Reads (ok metas, w) = refl
  listed-Reads (err e, w) = refl

  tabled-Reads : (q : Result (List StatusRow) × World) → but_ops (tabled q).world ≡ but_ops q.1
  tabled-Reads (ok rows, w) = refl
  tabled-Reads (err e, w) = refl

  show_status-Reads :
      (w : World) (cfg : Config) (topic subscription status : String)
      → but_ops (show_status env w cfg topic subscription status).world ≡ but_ops w
  unfolding dlq_list
  show_status-Reads w cfg topic subscription status = ground (
    arith,
    listed-Reads (dlq_list env (new_pipeline cfg false) topic w),
    dlq_topics-Reads topic cfg.topics w,
    tabled-Reads (
        status_rows env (record { topic = topic; subscription = subscription; status = status }) w),
    status_rows-Reads (record { topic = topic; subscription = subscription; status = status }) w,
  )

  -- `status` and `config validate` change no file and no memory, whatever their arguments and
  -- whatever fails.
  pub status-Reads :
      (o : Outside) (args : List String) (w : World)
      → (but_ops (cmd_status env o args w).world ≡ but_ops w)
        × (but_ops (cmd_config_validate o args w).world ≡ but_ops w)
  unfolding cmd_status cmd_config_validate
  status-Reads o args w = (
    with_config-Reads o.host status_flags args w
        (λ values cfg.
          show_status env w cfg (flag_value values "topic") (flag_value values "subscription")
            (flag_value values "status"))
        (λ values cfg.
          show_status-Reads w cfg (flag_value values "topic") (flag_value values "subscription")
            (flag_value values "status")),
    with_config-Reads o.host ("config" ∷ []) args w
        (λ values cfg. record {
          status = exit exit_ok;
          output = validated (length cfg.topics) (count_subscriptions cfg.topics);
          world = w;
        })
        (λ values cfg. refl),
  )
