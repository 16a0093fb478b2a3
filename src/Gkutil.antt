-- ===== src/Gkutil.antt =====
-- internal/gkutil/gk.go. `parse_group_version` is the group of schema.ParseGroupVersion.
use application_controller.Common.{String, Bool, Option, none, some, ◌==◌}
use application_controller.Kube.{GroupKind, RoleRef, OwnerReference, group_kind_eq}

unfoldable pub from_role_ref : RoleRef → GroupKind
from_role_ref r = record { group = r.api_group; kind = r.kind }

-- An API version that does not parse has the empty group.
unfoldable pub group_or_empty : Option String → String
group_or_empty none = ""
group_or_empty (some g) = g

unfoldable pub from_owner_reference : (String → Option String) → Option OwnerReference → GroupKind
unfolding group_or_empty
from_owner_reference parse_group_version none = record { group = ""; kind = "" }
from_owner_reference parse_group_version (some r) = record {
  group = group_or_empty (parse_group_version r.api_version);
  kind = r.kind;
}

unfoldable pub is_cluster_role : GroupKind → Bool
is_cluster_role gk = gk == record { group = "rbac.authorization.k8s.io"; kind = "ClusterRole" }

unfoldable pub is_role : GroupKind → Bool
is_role gk = gk == record { group = "rbac.authorization.k8s.io"; kind = "Role" }

unfoldable pub is_application : GroupKind → Bool
is_application gk = gk == record { group = "yarotsky.me"; kind = "Application" }
