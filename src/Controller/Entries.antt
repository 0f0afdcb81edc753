-- ===== src/Controller/Entries.antt =====
-- TSecretReconciler of pkg/controller/tsecret_controller.go
pub mod Laws
use tsecret.Common.{
  ℕ, Bool, true, false, ◌&&◌, ◌||◌, not, List, [], ◌∷◌, ◌++◌, Text, codes, text_eq, Map, length,
  Message, not_found, is_not_found, Result, ok, err, errorf, num, if◌then◌else◌,
}
use tsecret.Api.{NamespacedName, TSecret, TSecretEntry, Condition, Time}
use tsecret.Crypto.{is_valid_encrypted_value, algorithm_xchacha, algorithm_chacha}
use tsecret.Controller.{Client, Duration, seconds}
use tsecret.Controller.Conditions.{set_condition}

-- One round of the loop over the entries.
unfoldable pub entry_valid : TSecretEntry → Bool
entry_valid e =
    is_valid_encrypted_value e.value
    && (text_eq e.algorithm algorithm_xchacha || text_eq e.algorithm algorithm_chacha)

unfoldable pub check_entries : Map TSecretEntry → Bool → Bool
check_entries [] all_valid = all_valid
check_entries ((key, e) ∷ es) all_valid =
    check_entries es (if entry_valid e then all_valid else false)

unfoldable pub ready_condition : Map TSecretEntry → Time → Condition
ready_condition es now =
    if check_entries es true
    then record {
      kind = codes "Ready";
      status = true;
      last_transition_time = now;
      reason = codes "Valid";
      message = errorf "All %d entries are valid encrypted values" (num (length es) ∷ []);
    }
    else record {
      kind = codes "Ready";
      status = false;
      last_transition_time = now;
      reason = codes "ValidationFailed";
      message = errorf "One or more entries have invalid encrypted format" [];
    }

unfoldable pub mark_ready : TSecret → Time → TSecret
mark_ready t now = record t {
  status = record t.status {
    conditions = set_condition t.status.conditions (ready_condition t.spec.entries now);
  };
}

-- client.IgnoreNotFound, beside the empty result.
unfoldable pub ignore_not_found : Message → Result Duration
ignore_not_found e = if is_not_found e then ok (seconds 0) else err e

after_update : Result (Unit {0}) → Result Duration
after_update (ok _) = ok (seconds 300)
after_update (err e) = err e

-- The outcome of Reconcile is the delay of the next one, or its error.
unfoldable pub reconcile_tsecret :
    {W : Type 0} → Client W → Time → NamespacedName → W → Result Duration × W
unfolding after_update
reconcile_tsecret c now key w = elim (c.get_tsecret w key) [
  | err e ↦ (ignore_not_found e, w)
  | ok t ↦ let (r, w') = c.update_tsecret_status (mark_ready t now) w in (after_update r, w')
]
