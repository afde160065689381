-- ===== src/Local/Arguments.antt =====
-- manager_lifecycle.go: the configuration of a new container, and the command line that starts one.
use etcd_infra.Common.{
  suc, Bool, true, false, not, ◌&&◌, ◌||◌, List, [], ◌∷◌, ◌++◌, Option, none, some, ◌⊎◌, inl, inr,
  if◌then◌else◌, ltb, ◌==◌, ℤ, pos, negsuc, is_empty, Text, codes, text_eq, cut_before, itoa,
}
use etcd_infra.Local.Containers.{data_dir, cluster_label, network_name}

-- compute.PortMapping
pub record PortMapping : Type 0 where
  pub container_port : ℤ
  pub host_port : ℤ
  pub host_ip : Text
  pub protocol : Text

pub record CreateConfig : Type 0 where
  pub command : List Text
  pub env : List Text
  pub aux_port_mapping : Option PortMapping

pub data ConfigError : Type 0 where
  not_one_mapping bad_client_port client_not_tcp : ConfigError
  bad_env : Text → ConfigError
  bad_aux_port bad_aux_host_port aux_not_tcp : ConfigError

abbrev pub is_port : ℤ → Bool
is_port (pos n) = ltb 0 n && ltb n 65536
is_port (negsuc n) = false

abbrev pub is_client_port : ℤ → Bool
is_client_port (pos n) = n == 2379
is_client_port (negsuc n) = false

abbrev pub is_tcp : Text → Bool
is_tcp protocol = is_empty protocol || text_eq protocol (codes "tcp")

-- clientPortMapping
unfoldable pub client_port_mapping : List PortMapping → ConfigError ⊎ PortMapping
client_port_mapping [] = inl not_one_mapping
client_port_mapping (m ∷ []) =
    if not (is_client_port m.container_port) || not (is_port m.host_port)
    then inl bad_client_port
    else if is_tcp m.protocol
    then inr m
    else inl client_not_tcp
client_port_mapping (m ∷ m' ∷ ms) = inl not_one_mapping

-- An entry without `=`, or with nothing before it.
abbrev is_bad_env : Option Text → Bool
is_bad_env none = true
is_bad_env (some key) = is_empty key

unfoldable pub first_bad_env : List Text → Option Text
first_bad_env [] = none
first_bad_env (e ∷ es) =
    let rest = first_bad_env es in if is_bad_env (cut_before e b'=') then some e else rest

abbrev aux_error : Option PortMapping → Option ConfigError
aux_error none = none
aux_error (some m) =
    if not (is_port m.container_port) || is_client_port m.container_port
    then some bad_aux_port
    else if is_port m.host_port
    then (if is_tcp m.protocol then none else some aux_not_tcp)
    else some bad_aux_host_port

abbrev env_error : Option Text → Option ConfigError → Option ConfigError
env_error none rest = rest
env_error (some e) rest = some (bad_env e)

-- validateCreateConfig
unfoldable pub validate_create_config : CreateConfig → Option ConfigError
unfolding first_bad_env
validate_create_config cfg = env_error (first_bad_env cfg.env) (aux_error cfg.aux_port_mapping)

-- strconv.Itoa
abbrev pub int_text : ℤ → Text
int_text (pos n) = itoa n
int_text (negsuc n) = codes "-" ++ itoa (suc n)

abbrev pub or_loopback : Text → Text
or_loopback ip = if is_empty ip then codes "127.0.0.1" else ip

-- publishArg
unfoldable pub publish_arg : PortMapping → ℤ → Text
publish_arg m host_port =
    or_loopback m.host_ip
    ++ codes ":"
    ++ int_text host_port
    ++ codes ":"
    ++ int_text m.container_port

unfoldable pub publish_aux : Option PortMapping → List Text
unfolding publish_arg
publish_aux none = []
publish_aux (some m) = codes "--publish" ∷ publish_arg m m.host_port ∷ []

-- The loop that passes on the environment.
unfoldable pub env_args : List Text → List Text
env_args [] = []
env_args (e ∷ es) = codes "--env" ∷ e ∷ env_args es

-- createRunArgs
unfoldable pub create_run_args : Text → Text → Text → Text → PortMapping → CreateConfig → List Text
unfolding publish_arg publish_aux env_args
create_run_args cluster name image volume port cfg =
    codes "run"
    ∷ codes "--detach"
    ∷ codes "--name"
    ∷ name
    ∷ codes "--label"
    ∷ cluster_label cluster
    ∷ codes "--network"
    ∷ network_name cluster
    ∷ codes "--publish"
    ∷ publish_arg port port.host_port
    ∷ (publish_aux cfg.aux_port_mapping
        ++ (env_args cfg.env
            ++ (codes "--volume" ∷ (volume ++ codes ":" ++ data_dir) ∷ image ∷ cfg.command)))
