-- ===== src/Api/Meta.antt =====
-- What the sources use of the Kubernetes types `metav1.ObjectMeta`, `metav1.Condition`,
-- `metav1.Time`, `types.NamespacedName` and `corev1.Secret`.
use tsecret.Common.{ℕ, Bool, Text, Bytes, Map, Message}

abbrev pub Time : Type 0
Time = ℕ

pub record ObjectMeta : Type 0 where
  pub name : Text
  pub namespace : Text
  pub labels : Map Text
  pub annotations : Map Text
  pub generation : ℕ

-- `status` is `true` for ConditionTrue and `false` for ConditionFalse, the two values that are set.
pub record Condition : Type 0 where
  pub kind : Text
  pub status : Bool
  pub last_transition_time : Time
  pub reason : Text
  pub message : Message

pub record NamespacedName : Type 0 where
  pub namespace : Text
  pub name : Text

pub record Secret : Type 0 where
  pub metadata : ObjectMeta
  pub entries : Map Bytes
