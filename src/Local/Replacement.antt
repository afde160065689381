-- ===== src/Local/Replacement.antt =====
-- manager_lifecycle.go: what is kept of a container when it is replaced.
use mathlib.Core.Option.{map}
use etcd_infra.Common.{
  Bool, true, false, not, ◌&&◌, ◌||◌, List, [], ◌∷◌, ◌++◌, Option, none, some, ◌⊎◌, inl, inr,
  if◌then◌else◌, is_empty, Text, codes, text_eq,
}
use etcd_infra.Local.Containers.{
  ContainerInspect, ContainerMount, PortBinding, container_name, data_dir, lookup_or, cluster_label,
  network_name,
}
use etcd_infra.Local.Arguments.{env_args, or_loopback}

pub record ReplacementSpec : Type 0 where
  pub container_id : Text
  pub name : Text
  pub cluster : Text
  pub image : Text
  pub command : List Text
  pub env : List Text
  pub aux_publish : Text
  pub network : Text
  pub private_ip : Text
  pub host_ip : Text
  pub host_port : Text
  pub volume : Text

pub data SpecError : Type 0 where
  no_ip no_client_binding : SpecError
  bad_aux_binding : Text → SpecError
  many_aux_bindings no_volume incomplete : SpecError

-- strings.CutSuffix, `none` if the suffix is not there
unfoldable pub cut_suffix : Text → Text → Option Text
cut_suffix [] suffix = if is_empty suffix then some [] else none
cut_suffix (c ∷ s) suffix =
    let rest = cut_suffix s suffix in if text_eq (c ∷ s) suffix then some [] else map (◌∷◌ c) rest

-- The single binding of a port, with its host port.
unfoldable pub single_binding : List PortBinding → Option PortBinding
single_binding [] = none
single_binding (b ∷ []) = if is_empty b.host_port then none else some b
single_binding (b ∷ b' ∷ bs) = none

abbrev pub client_port_key : Text
client_port_key = codes "2379/tcp"

abbrev aux_publish_of : Text → Option Text → Option PortBinding → Text → SpecError ⊎ Text
aux_publish_of key none b aux = inl (bad_aux_binding key)
aux_publish_of key (some port) none aux = inl (bad_aux_binding key)
aux_publish_of key (some port) (some b) aux =
    if is_empty aux
    then inr (or_loopback b.host_ip ++ codes ":" ++ b.host_port ++ codes ":" ++ port)
    else inl many_aux_bindings

abbrev and_then : {A B : Type 0} → SpecError ⊎ A → (A → SpecError ⊎ B) → SpecError ⊎ B
and_then (inl e) f = inl e
and_then (inr a) f = f a

-- The loop over the port bindings, with the auxiliary port found so far. Go's order of the map is
-- not fixed; with more than one bad port the error may be any of them.
unfoldable pub aux_publish : List (Text × List PortBinding) → Text → SpecError ⊎ Text
unfolding cut_suffix single_binding
aux_publish [] aux = inr aux
aux_publish ((key, bindings) ∷ ports) aux =
    if text_eq key client_port_key
    then aux_publish ports aux
    else and_then (aux_publish_of key (cut_suffix key (codes "/tcp")) (single_binding bindings) aux)
        (aux_publish ports)

unfoldable pub data_volume : List ContainerMount → Text
data_volume [] = []
data_volume (m ∷ ms) =
    let rest = data_volume ms in
    if text_eq m.mount_type (codes "volume") && text_eq m.destination data_dir then m.name else rest

abbrev required : {A : Type 0} → SpecError → Option A → SpecError ⊎ A
required e none = inl e
required e (some a) = inr a

abbrev checked : {A : Type 0} → SpecError → Bool → SpecError ⊎ A → SpecError ⊎ A
checked e true rest = rest
checked e false rest = inl e

-- replacementSpecFromInspect
unfoldable pub replacement_spec_from_inspect : ContainerInspect → Text → SpecError ⊎ ReplacementSpec
unfolding lookup_or single_binding aux_publish data_volume
replacement_spec_from_inspect c cluster =
    let network = network_name cluster in
    let ip = lookup_or [] network c.networks in
    let volume = data_volume c.mounts in
    let complete =
      not (is_empty c.id || is_empty (container_name c) || is_empty c.image || is_empty c.cmd) in
    checked no_ip (not (is_empty ip)) (
      and_then
        (required no_client_binding (single_binding (lookup_or [] client_port_key c.port_bindings)))
        (λ b. and_then (aux_publish c.port_bindings []) (λ aux.
          checked no_volume (not (is_empty volume)) (
            checked incomplete complete (
              inr (record {
                container_id = c.id;
                name = container_name c;
                cluster = cluster;
                image = c.image;
                command = c.cmd;
                env = c.env;
                aux_publish = aux;
                network = network;
                private_ip = ip;
                host_ip = b.host_ip;
                host_port = b.host_port;
                volume = volume;
              }))))))

abbrev pub publish_aux_text : Text → List Text
publish_aux_text aux = if is_empty aux then [] else codes "--publish" ∷ aux ∷ []

-- replacementSpec.runArgs
unfoldable pub run_args : ReplacementSpec → List Text
unfolding env_args
run_args spec =
    let publish = spec.host_port ++ codes ":2379" in
    codes "run"
    ∷ codes "--detach"
    ∷ codes "--name"
    ∷ spec.name
    ∷ codes "--label"
    ∷ cluster_label spec.cluster
    ∷ codes "--network"
    ∷ spec.network
    ∷ codes "--ip"
    ∷ spec.private_ip
    ∷ codes "--publish"
    ∷ (if is_empty spec.host_ip then publish else spec.host_ip ++ codes ":" ++ publish)
    ∷ (publish_aux_text spec.aux_publish
        ++ (env_args spec.env
            ++ (codes "--volume"
                ∷ (spec.volume ++ codes ":" ++ data_dir)
                ∷ spec.image
                ∷ spec.command)))
