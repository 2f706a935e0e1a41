-- ===== src/Kernel/Devices.antt =====
-- The default devices of kernel/src/kernel.c: `execute_io_default` and `simulate_io_default`.
pub mod Order
pub mod Setup
use geck.Prelude.{
  suc, ◌-◌, ◌==◌, ℤ, List, [], ◌∷◌, ◌++◌, Bool, Option, none, some, if◌then◌else◌, ◌>>=◌,
}
use geck.Shared.Strings.{Text, strcmp_eq, atoi}
use geck.Shared.{Pcb}
use geck.Kernel.{KernelConfig, Device, Kernel, Outcome, blocked, fault, done}
use geck.Kernel.Ready.{make_ready, post_ready}

unfoldable pub create_queue_for_io : Text → Text → Device
create_queue_for_io io_name time = record {
  device_name = io_name;
  device_locked_time = atoi time;
  list_processes = [];
  sem_devices = 0;
}

unfoldable pub dictionary_get : List (Text × Device) → Text → Option Device
dictionary_get [] name = none
dictionary_get ((key, device) ∷ rest) name =
    let later = dictionary_get rest name in if strcmp_eq key name then some device else later

-- `dictionary_put` replaces what is under the name, or adds it.
unfoldable pub dictionary_put : List (Text × Device) → Text → Device → List (Text × Device)
dictionary_put [] name device = (name, device) ∷ []
dictionary_put ((key, old) ∷ rest) name device =
    let later = dictionary_put rest name device in
    if strcmp_eq key name then (key, device) ∷ rest else (key, old) ∷ later

-- The loop of `init_device_config_dictionary`, up to the end of the shorter of the two arrays.
unfoldable pub init_device_config_dictionary :
    List Text → List Text → List (Text × Device) → List (Text × Device)
init_device_config_dictionary (name ∷ names) (time ∷ times) dictionary_io =
    init_device_config_dictionary names times
      (dictionary_put dictionary_io name (create_queue_for_io name time))
init_device_config_dictionary names times dictionary_io = dictionary_io

-- A device that the configuration does not have is a null pointer.
unfoldable pub execute_io_default : Pcb → Text → ℤ → Kernel → Option Kernel
execute_io_default pcb device_name parameter k = do
  device ← dictionary_get k.dictionary_io device_name
  some (record k {
    dictionary_io = dictionary_put k.dictionary_io device_name (record device {
      list_processes = device.list_processes ++ (parameter, pcb) ∷ [];
      sem_devices = suc device.sem_devices;
    });
  })

module _ (same : Text → Text → Bool) (c : KernelConfig) (name : Text) (k : Kernel) where
  -- The first process that waits for a device becomes ready; no process is a null pointer.
  abbrev pub serve : List (ℤ × Pcb) → Device → Outcome
  serve [] device = fault
  serve ((time, pcb) ∷ rest) device =
      let served : Device = record device {
        list_processes = rest;
        sem_devices = device.sem_devices - 1;
      } in
      done
        (post_ready same c (
          make_ready same c pcb
            (record k { dictionary_io = dictionary_put k.dictionary_io name served })))
        []

  abbrev pub simulate_device : Option Device → Outcome
  simulate_device none = fault
  simulate_device (some device) =
      if device.sem_devices == 0 then blocked else serve device.list_processes device

-- A round of a device's thread.
unfoldable pub simulate_io_default : (Text → Text → Bool) → KernelConfig → Text → Kernel → Outcome
simulate_io_default same c name k =
    simulate_device same c name k (dictionary_get k.dictionary_io name)
