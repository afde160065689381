-- ===== src/Local/Samples.antt =====
-- Concrete containers of a cluster, and a runtime that always shows the same one.
use mathlib.Core.List.{Perm}
use etcd_infra.Common.{
  ℕ, ◌≡◌, ◌↔◌, refl, inr, true, List, [], ◌∷◌, none, some, pos, Text, codes, text_eq, itoa,
  trim_prefix, sort, insert_sorted, text_leb,
}
use etcd_infra.Local.Containers.{ContainerInspect, lookup_or, network_name}
use etcd_infra.Local.Env.{same_env, same_env-perm}
use etcd_infra.Local.Arguments.{PortMapping, CreateConfig, client_port_mapping, create_run_args}
use etcd_infra.Local.Replacement.{
  ReplacementSpec, replacement_spec_from_inspect, run_args, data_volume, aux_publish, cut_suffix,
}
use etcd_infra.Local.Relaunch.{Reports, Apart, with_ip, kept, relaunch_same}
use etcd_infra.Local.Manager.{
  Runtime, State, Manager, records, volumes, restore_container, owned_record,
}
use etcd_infra.Local.Manager.Restored.{Restored, restore_container-Restored}
use etcd_infra.Local.Manager.Guarded.{Guarded}
use etcd_infra.Local.Manager.Operations.{deletes, stops, replaces, perform_all, perform_all-Guarded}

abbrev created_env : List Text
created_env = codes "A=1" ∷ codes "B=2" ∷ codes "A=1" ∷ []

abbrev reported_env : List Text
reported_env = codes "B=2" ∷ codes "A=1" ∷ codes "A=1" ∷ []

abbrev dev : Text
dev = codes "dev"

abbrev client : PortMapping
client = record { container_port = pos 2379; host_port = pos 30001; host_ip = []; protocol = [] }

abbrev gofail : PortMapping
gofail = record {
  container_port = pos 22381;
  host_port = pos 30002;
  host_ip = [];
  protocol = codes "tcp";
}

abbrev created : CreateConfig
created = record { command = codes "etcd" ∷ []; env = created_env; aux_port_mapping = some gofail }

-- The container of member `m1`, with the given ID.
abbrev container : Text → ContainerInspect
container id = record {
  id = id;
  name = codes "/m1";
  image = codes "etcd:v3";
  cmd = codes "etcd" ∷ [];
  env = reported_env;
  labels = (codes "etcd-infra.cluster", dev) ∷ [];
  port_bindings =
      (codes "2379/tcp", record { host_ip = codes "127.0.0.1"; host_port = codes "30001" } ∷ [])
      ∷ (codes "22381/tcp", record { host_ip = codes "127.0.0.1"; host_port = codes "30002" } ∷ [])
      ∷ [];
  networks = (codes "dev-net", codes "10.1.0.2") ∷ [];
  mounts =
      record {
        mount_type = codes "volume";
        name = codes "m1-data";
        destination = codes "/etcd-data";
      }
      ∷ [];
  status = codes "running";
  running = true;
}

m1_reported :
    Reports dev
      (codes "m1")
      (codes "etcd:v3")
      (codes "m1-data")
      (codes "10.1.0.2")
      client
      created
      (container (codes "c1"))
unfolding trim_prefix lookup_or text_eq network_name data_volume itoa
m1_reported = record {
  named = refl;
  imaged = refl;
  commanded = refl;
  networked = refl;
  mounted = refl;
  bound = refl;
  id_some = refl;
  name_some = refl;
  image_some = refl;
  command_some = refl;
  ip_some = refl;
  volume_some = refl;
}

gofail-Apart : Apart (some gofail)
unfolding text_eq itoa
gofail-Apart = refl

client_taken : client_port_mapping (client ∷ []) ≡ inr client
unfolding client_port_mapping
client_taken = refl

abbrev showing : Text → Runtime ℕ
showing id = record {
  inspect = λ w asked. (w, records (container id ∷ []));
  inspect_volume = λ w asked. (w, volumes []);
  command = λ w args. (w, none);
}

abbrev manager : Manager
manager = record { runtime = codes "docker"; cluster = dev; downtime = pos 0 }

abbrev fresh : State (showing (codes "c2"))
fresh = record { world = 0; log = [] }

abbrev old : ReplacementSpec
old =
    kept dev (codes "m1") (codes "etcd:v3") (codes "m1-data") (codes "10.1.0.2") client created
      (container (codes "c1"))

old_restored : (restore_container (showing (codes "c2")) dev old 3 fresh).1 ≡ none
unfolding restore_container owned_record text_eq lookup_or replacement_spec_from_inspect
    network_name trim_prefix itoa same_env cut_suffix aux_publish sort insert_sorted text_leb
old_restored = refl

same_env-perm_example : (same_env created_env reported_env ≡ true) ↔ Perm created_env reported_env
same_env-perm_example = same_env-perm created_env reported_env

relaunch_same_example :
    (spec : ReplacementSpec) × (replacement_spec_from_inspect (container (codes "c1")) dev
      ≡ inr spec)
    × (run_args spec
        ≡ with_ip (codes "10.1.0.2") (
            create_run_args dev
              (codes "m1")
              (codes "etcd:v3")
              (codes "m1-data")
              client
              (record created { env = reported_env })))
relaunch_same_example =
    relaunch_same dev (codes "m1") (codes "etcd:v3") (codes "m1-data") (codes "10.1.0.2") client
      created (container (codes "c1")) m1_reported gofail-Apart client_taken

restore_container-Restored_example :
    Restored dev old (restore_container (showing (codes "c2")) dev old 3 fresh).0.log
restore_container-Restored_example =
    restore_container-Restored (showing (codes "c2")) dev old 3 fresh old_restored

perform_all-Guarded_example :
    Guarded dev
      (perform_all
        (showing (codes "c2"))
        manager
        (replaces true 3 (codes "m1") ∷ stops (codes "m1") ∷ deletes (codes "m1") ∷ [])
        fresh).log
perform_all-Guarded_example =
    perform_all-Guarded (showing (codes "c2")) manager
      (replaces true 3 (codes "m1") ∷ stops (codes "m1") ∷ deletes (codes "m1") ∷ []) fresh tt
