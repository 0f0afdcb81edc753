-- ===== src/Controller/Stores.antt =====
-- TSecretStoreReconciler of pkg/controller/store_controller.go
pub mod Blocked
use tsecret.Common.{some, [], Text, codes, text_eq, Message, Result, ok, err, errorf}
use tsecret.Api.{NamespacedName, TSecretStore, Time}
use tsecret.Providers.Base.{Http, Json, Environ}
use tsecret.Providers.{new_provider, health_check}
use tsecret.Controller.{Client, Duration, seconds}
use tsecret.Controller.Conditions.{set_condition}
use tsecret.Controller.Entries.{ignore_not_found}

unfoldable pub store_with_status : TSecretStore → Time → Text → Text → Message → TSecretStore
store_with_status store now status reason message = record store {
  status = record {
    conditions = set_condition store.status.conditions (record {
      kind = codes "Ready";
      status = text_eq status (codes "Available");
      last_transition_time = now;
      reason = reason;
      message = message;
    });
    status = status;
    last_checked_at = some now;
  };
}

-- The update's error is only logged.
unfoldable pub set_store_status :
    {W : Type 0} → Client W → Time → TSecretStore → Text → Text → Message → W → W
set_store_status c now store status reason message w =
    (c.update_store_status (store_with_status store now status reason message) w).1

-- The status that a check finds, with its reason and its message.
pub record Health : Type 0 where
  pub status : Text
  pub reason : Text
  pub message : Message

module _ {J : Type 0} (http : Http) (json : Json J) (env : Environ) where
  unfoldable pub check_store : TSecretStore → Health
  check_store store = elim (new_provider env store.spec.provider) [
    | err e ↦ record { status = codes "Invalid"; reason = codes "ProviderConfigError"; message = e }
    | ok p ↦ elim (health_check http json env p).0 [
      | err e ↦ record {
        status = codes "Unavailable";
        reason = codes "HealthCheckFailed";
        message = e;
      }
      | ok _ ↦ record {
        status = codes "Available";
        reason = codes "HealthCheckPassed";
        message = errorf "Provider is reachable" [];
      }
    ]
  ]

  unfoldable pub reconcile_store :
      {W : Type 0} → Client W → Time → NamespacedName → W → Result Duration × W
  reconcile_store c now key w = elim (c.get_store w key) [
    | err e ↦ (ignore_not_found e, w)
    | ok store ↦
        let h = check_store store in
        (ok (seconds 60), set_store_status c now store h.status h.reason h.message w)
  ]
