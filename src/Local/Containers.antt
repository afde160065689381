-- ===== src/Local/Containers.antt =====
-- manager.go, manager_lifecycle.go: what the container runtime reports, and the names of a cluster's
-- resources. Maps are association lists; Go's maps have no order, and neither is one relied on.
use etcd_infra.Common.{
  Bool, true, false, List, [], ◌∷◌, ◌++◌, if◌then◌else◌, Text, codes, text_eq, trim_prefix,
  to_lower,
}

pub record PortBinding : Type 0 where
  pub host_ip : Text
  pub host_port : Text

pub record ContainerMount : Type 0 where
  pub mount_type : Text
  pub name : Text
  pub destination : Text

-- containerInspect, with its nested structs laid flat
pub record ContainerInspect : Type 0 where
  pub id : Text
  pub name : Text
  pub image : Text
  pub cmd : List Text
  pub env : List Text
  pub labels : List (Text × Text)
  pub port_bindings : List (Text × List PortBinding)
  pub networks : List (Text × Text)
  pub mounts : List ContainerMount
  pub status : Text
  pub running : Bool

abbrev pub data_dir : Text
data_dir = codes "/etcd-data"

abbrev pub cluster_label_key : Text
cluster_label_key = codes "etcd-infra.cluster"

unfoldable pub network_name : Text → Text
network_name cluster = cluster ++ codes "-net"

unfoldable pub cluster_label : Text → Text
cluster_label cluster = cluster_label_key ++ codes "=" ++ cluster

unfoldable pub data_volume_name : Text → Text
data_volume_name member = member ++ codes "-data"

-- A map's value at a key, and the zero value `zero` for a missing key.
unfoldable pub lookup_or {ℓ} : {V : Type ℓ} → V → Text → List (Text × V) → V
lookup_or zero key [] = zero
lookup_or zero key ((k, v) ∷ m) = if text_eq k key then v else lookup_or zero key m

-- The name of a container without the slash that Docker puts before it.
abbrev pub container_name : ContainerInspect → Text
container_name c = trim_prefix c.name b'/'

pub data InstanceState : Type 0 where
  running pending terminated stopped unknown : InstanceState

-- containerState; the names of the states are compared in lower case
unfoldable pub is_pending_status : Text → Bool
is_pending_status status =
    let s = to_lower status in
    if text_eq s (codes "created")
    then true
    else if text_eq s (codes "configured")
    then true
    else text_eq s (codes "restarting")

unfoldable pub container_state : Bool → Text → InstanceState
unfolding is_pending_status
container_state true status = running
container_state false status =
    let s = to_lower status in
    if is_pending_status status
    then pending
    else if text_eq s (codes "dead")
    then terminated
    else if text_eq s (codes "removing")
    then terminated
    else if text_eq s (codes "exited")
    then stopped
    else if text_eq s (codes "stopped")
    then stopped
    else if text_eq s (codes "paused")
    then stopped
    else unknown
