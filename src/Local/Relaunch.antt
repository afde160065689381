-- ===== src/Local/Relaunch.antt =====
-- manager_lifecycle.go: the arguments of createRunArgs beside those of replacementSpec.runArgs.
use etcd_infra.Common.{
  ◌≡◌, refl, ap, ◌∙◌, true, false, List, [], ◌∷◌, ◌++◌, append_assoc, Option, none, some, inl, inr,
  arith, Bool-cases, is_empty, Text, codes, text_eq, text_eq_iff, ℤ, pos, negsuc, itoa,
  itoa-is_empty, take, drop, length, length-append, ==_iff,
}
use etcd_infra.Local.Containers.{
  ContainerInspect, PortBinding, container_name, lookup_or, network_name,
}
use etcd_infra.Local.Arguments.{
  PortMapping, CreateConfig, client_port_mapping, is_client_port, int_text, or_loopback,
  publish_aux, publish_arg, create_run_args,
}
use etcd_infra.Local.Replacement.{
  ReplacementSpec, replacement_spec_from_inspect, run_args, client_port_key, single_binding,
  aux_publish, cut_suffix, data_volume, publish_aux_text,
}

-- A binding of a port as the runtime reports it.
abbrev pub binding_of : PortMapping → PortBinding
binding_of m = record { host_ip = or_loopback m.host_ip; host_port = int_text m.host_port }

abbrev pub key_of : PortMapping → Text
key_of m = int_text m.container_port ++ codes "/tcp"

abbrev pub aux_bindings : Option PortMapping → List (Text × List PortBinding)
aux_bindings none = []
aux_bindings (some m) = (key_of m, binding_of m ∷ []) ∷ []

abbrev pub Apart : Option PortMapping → Type 0
Apart none = Unit
Apart (some m) = text_eq (key_of m) client_port_key ≡ false

-- The runtime's report of a container that was created with these arguments and got the address
-- `ip`. The environment may have grown by the image's own.
pub record Reports (cluster name image volume ip : Text) (port : PortMapping) (cfg : CreateConfig)
    (c : ContainerInspect) : Type 0 where
  pub named : container_name c ≡ name
  pub imaged : c.image ≡ image
  pub commanded : c.cmd ≡ cfg.command
  pub networked : lookup_or [] (network_name cluster) c.networks ≡ ip
  pub mounted : data_volume c.mounts ≡ volume
  pub bound :
      c.port_bindings ≡ (client_port_key, binding_of port ∷ []) ∷ aux_bindings cfg.aux_port_mapping
  pub id_some : is_empty c.id ≡ false
  pub name_some : is_empty name ≡ false
  pub image_some : is_empty image ≡ false
  pub command_some : is_empty cfg.command ≡ false
  pub ip_some : is_empty ip ≡ false
  pub volume_some : is_empty volume ≡ false

abbrev pub aux_text : Option PortMapping → Text
aux_text none = []
aux_text (some m) =
    or_loopback m.host_ip
    ++ codes ":"
    ++ int_text m.host_port
    ++ codes ":"
    ++ int_text m.container_port

-- What is kept of such a container.
abbrev pub kept :
    Text
    → Text
    → Text
    → Text
    → Text
    → PortMapping
    → CreateConfig
    → ContainerInspect
    → ReplacementSpec
kept cluster name image volume ip port cfg c = record {
  container_id = c.id;
  name = name;
  cluster = cluster;
  image = image;
  command = cfg.command;
  env = c.env;
  aux_publish = aux_text cfg.aux_port_mapping;
  network = network_name cluster;
  private_ip = ip;
  host_ip = or_loopback port.host_ip;
  host_port = int_text port.host_port;
  volume = volume;
}

-- The arguments with `--ip` behind those of the network.
abbrev pub with_ip : Text → List Text → List Text
with_ip ip args = take 8 args ++ codes "--ip" ∷ ip ∷ drop 8 args

int_text-is_empty : (n : ℤ) → is_empty (int_text n) ≡ false
int_text-is_empty (pos n) = itoa-is_empty n
int_text-is_empty (negsuc n) = refl

cut_suffix-append :
    (suffix p : Text) → is_empty suffix ≡ false → cut_suffix (p ++ suffix) suffix ≡ some p
unfolding cut_suffix
cut_suffix-append [] p h = absurd (cc)
cut_suffix-append (d ∷ suffix) [] h = ground (arith, text_eq_iff (d ∷ suffix) (d ∷ suffix))
cut_suffix-append (d ∷ suffix) (c ∷ p) h =
    elim (Bool-cases (text_eq (c ∷ p ++ d ∷ suffix) (d ∷ suffix))) [
      | inl e ↦
          let same = ap length ((text_eq_iff (c ∷ p ++ d ∷ suffix) (d ∷ suffix)).0 e) in
          absurd (omega (arith, same, length-append p (d ∷ suffix)))
      | inr e ↦ rw (e, cut_suffix-append (d ∷ suffix) p h)
    ]

or_loopback_idem : (ip : Text) → or_loopback (or_loopback ip) ≡ or_loopback ip
or_loopback_idem [] = refl
or_loopback_idem (c ∷ ip) = refl

or_loopback_some : (ip : Text) → is_empty (or_loopback ip) ≡ false
or_loopback_some [] = refl
or_loopback_some (c ∷ ip) = refl

aux_publish-aux_bindings :
    (aux : Option PortMapping) → Apart aux → aux_publish (aux_bindings aux) [] ≡ inr (aux_text aux)
unfolding aux_publish single_binding
aux_publish-aux_bindings none h = refl
aux_publish-aux_bindings (some m) h = rw (
  h,
  cut_suffix-append (codes "/tcp") (int_text m.container_port) refl,
  int_text-is_empty m.host_port,
  or_loopback_idem m.host_ip,
)

itoa_2379 : itoa 2379 ≡ codes "2379"
unfolding itoa
itoa_2379 = refl

int_text_client : (z : ℤ) → is_client_port z ≡ true → int_text z ≡ codes "2379"
int_text_client (pos n) h = ap itoa ((==_iff n 2379).0 h) ∙ itoa_2379
int_text_client (negsuc n) h = absurd (cc)

is_client_port_of_mapping :
    (port : PortMapping)
    → client_port_mapping (port ∷ []) ≡ inr port
    → is_client_port port.container_port ≡ true
unfolding client_port_mapping
is_client_port_of_mapping port h = elim (Bool-cases (is_client_port port.container_port)) [
  | inl e ↦ e
  | inr e ↦ let h' = rw e at h in absurd (cc h')
]

client_port_is :
    (port : PortMapping)
    → client_port_mapping (port ∷ []) ≡ inr port
    → int_text port.container_port ≡ codes "2379"
client_port_is port h = int_text_client port.container_port (is_client_port_of_mapping port h)

publish_aux_text-aux_text :
    (aux : Option PortMapping) → publish_aux_text (aux_text aux) ≡ publish_aux aux
unfolding publish_aux publish_arg
publish_aux_text-aux_text none = refl
publish_aux_text-aux_text (some m) = ground (arith, or_loopback_some m.host_ip)

module _ (cluster name image volume ip : Text) (port : PortMapping) (cfg : CreateConfig)
    (c : ContainerInspect) (r : Reports cluster name image volume ip port cfg c) where
  kept_spec :
      Apart cfg.aux_port_mapping
      → replacement_spec_from_inspect c cluster ≡ inr (kept cluster name image volume ip port cfg c)
  unfolding replacement_spec_from_inspect text_eq
  kept_spec apart = rw (
    r.networked,
    r.ip_some,
    r.bound,
    int_text-is_empty port.host_port,
    aux_publish-aux_bindings cfg.aux_port_mapping apart,
    r.mounted,
    r.volume_some,
    r.id_some,
    r.named,
    r.name_some,
    r.imaged,
    r.image_some,
    r.commanded,
    r.command_some,
  )

  run_args-kept :
      client_port_mapping (port ∷ []) ≡ inr port
      → run_args (kept cluster name image volume ip port cfg c)
        ≡ with_ip ip (create_run_args cluster name image volume port (record cfg { env = c.env }))
  unfolding run_args create_run_args publish_arg
  run_args-kept h =
      rw
        (
          client_port_is port h,
          publish_aux_text-aux_text cfg.aux_port_mapping,
          or_loopback_some port.host_ip,
        )
        (simp append_assoc)

  -- If the runtime reports a container as it was created, with one client port, an auxiliary port
  -- other than it or none, an address on the cluster's network, and an ID, name, image, command and
  -- data volume that are not empty, then its inspection gives a specification, and the relaunch
  -- passes the arguments that created it, with the reported environment and with that address
  -- pinned behind the network.
  pub relaunch_same :
      Apart cfg.aux_port_mapping
      → client_port_mapping (port ∷ []) ≡ inr port
      → (spec : ReplacementSpec) × (replacement_spec_from_inspect c cluster ≡ inr spec)
        × (run_args spec
            ≡ with_ip ip
                (create_run_args cluster name image volume port (record cfg { env = c.env })))
  relaunch_same apart h =
      (kept cluster name image volume ip port cfg c, kept_spec apart, run_args-kept h)
