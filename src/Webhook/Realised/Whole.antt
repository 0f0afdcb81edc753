-- ===== src/Webhook/Realised/Whole.antt =====
-- The whole handler, and the plans of a pod that it mutates.
use tsecret.Common.{Bool, List, Text, Map, map, Reorder}
use tsecret.Webhook.Types.{Pod}
use tsecret.Webhook.Plan.{TSecretInjection, collect_injections}
use tsecret.Webhook.Realised.Plans.{Realised}
use tsecret.Webhook.Realised.Made.{Made}
use tsecret.Webhook.{Ranging}

-- Go visits every plan and every container of a plan once.
pub record IsRanging (r : Ranging) : Type 0 where
  pub every_plan :
      (m : Map TSecretInjection)
      → Reorder (map (λ (e : Text × TSecretInjection). e.1) m) (r.plans m)
  pub every_container : (plan : TSecretInjection) → Reorder plan.containers (r.mount_loop plan)

-- The plans that collectInjections makes of a pod.
abbrev pub plans_of : (Text → Bool) → Pod → List TSecretInjection
plans_of has pod = map (λ (e : Text × TSecretInjection). e.1) (collect_injections has pod).1
