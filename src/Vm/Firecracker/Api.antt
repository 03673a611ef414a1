-- ===== src/Vm/Firecracker/Api.antt =====
-- The requests of the Firecracker API, crates/rustbox-vm/src/firecracker/api.rs.
use rustbox.Prelude.{ℕ, Text, codes, [], ◌∷◌, ◌++◌, Bool, Exec}
use rustbox.Core.Error.{RustboxError}
use rustbox.Vm.Firecracker.Http.{Value, Http, put, patch}

module _ {H : Type 0} (http : Http H) where
  unfoldable pub put_boot_source : Text → Text → Text → Exec H RustboxError (Unit {0})
  put_boot_source socket kernel_image_path boot_args = put http socket (codes "/boot-source") (
      (codes "kernel_image_path", Value.string kernel_image_path)
      ∷ (codes "boot_args", Value.string boot_args)
      ∷ [])

  unfoldable pub put_drive : Text → Text → Text → Bool → Bool → Exec H RustboxError (Unit {0})
  put_drive socket drive_id path_on_host is_root is_read_only =
      put http socket (codes "/drives/" ++ drive_id) (
        (codes "drive_id", Value.string drive_id)
        ∷ (codes "path_on_host", Value.string path_on_host)
        ∷ (codes "is_root_device", Value.bool is_root)
        ∷ (codes "is_read_only", Value.bool is_read_only)
        ∷ [])

  unfoldable pub put_machine_config : Text → ℕ → ℕ → Exec H RustboxError (Unit {0})
  put_machine_config socket vcpu_count mem_size_mib = put http socket (codes "/machine-config") (
      (codes "vcpu_count", Value.number vcpu_count)
      ∷ (codes "mem_size_mib", Value.number mem_size_mib)
      ∷ [])

  unfoldable pub put_network_interface : Text → Text → Text → Text → Exec H RustboxError (Unit {0})
  put_network_interface socket iface_id tap_name mac =
      put http socket (codes "/network-interfaces/" ++ iface_id) (
        (codes "iface_id", Value.string iface_id)
        ∷ (codes "host_dev_name", Value.string tap_name)
        ∷ (codes "guest_mac", Value.string mac)
        ∷ [])

  unfoldable pub put_vsock : Text → Text → ℕ → Exec H RustboxError (Unit {0})
  put_vsock socket vsock_path guest_cid = put http socket (codes "/vsock") (
      (codes "guest_cid", Value.number guest_cid)
      ∷ (codes "uds_path", Value.string vsock_path)
      ∷ [])

  -- An action of the machine.
  abbrev act : Text → Text → Exec H RustboxError (Unit {0})
  act action socket =
      put http socket (codes "/actions") ((codes "action_type", Value.string action) ∷ [])

  unfoldable pub start_instance : Text → Exec H RustboxError (Unit {0})
  start_instance = act (codes "InstanceStart")

  unfoldable pub stop_instance : Text → Exec H RustboxError (Unit {0})
  stop_instance = act (codes "SendCtrlAltDel")

  unfoldable pub pause_instance : Text → Exec H RustboxError (Unit {0})
  pause_instance socket =
      patch http socket (codes "/vm") ((codes "state", Value.string (codes "Paused")) ∷ [])

  unfoldable pub create_snapshot : Text → Text → Text → Exec H RustboxError (Unit {0})
  create_snapshot socket snapshot_path mem_path = put http socket (codes "/snapshot/create") (
      (codes "snapshot_type", Value.string (codes "Full"))
      ∷ (codes "snapshot_path", Value.string snapshot_path)
      ∷ (codes "mem_file_path", Value.string mem_path)
      ∷ [])

  unfoldable pub load_snapshot : Text → Text → Text → Exec H RustboxError (Unit {0})
  load_snapshot socket snapshot_path mem_path = put http socket (codes "/snapshot/load") (
      (codes "snapshot_path", Value.string snapshot_path)
      ∷ (codes "mem_file_path", Value.string mem_path)
      ∷ [])
