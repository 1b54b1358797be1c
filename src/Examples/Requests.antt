-- ===== src/Examples/Requests.antt =====
-- The theorems on the device list, the import and the virtual devices' table at concrete inputs.
use esp_usbip_bridge.Base.{◌≡◌, ◌⊎◌, inl, inr, true, refl, [], ◌∷◌, some, arith, length, replicate}
use esp_usbip_bridge.Device.{Device, zero_device}
use esp_usbip_bridge.Registry.{Registry, VirtualDevice, register}
use esp_usbip_bridge.Registry.Laws.{IsValid, is_registered, register-IsValid}
use esp_usbip_bridge.Esp.{esp_ok}
use esp_usbip_bridge.Server.Host.{Host, VirtualOps, IsQuiet}
use esp_usbip_bridge.Server.Requests.{ServerConfig, fill_wire_device_desc}
use esp_usbip_bridge.Server.Requests.Laws.{length-fill_wire_device_desc, make_devid-injective}
use esp_usbip_bridge.Examples.World.{World, test_host, test_ops, test_backend}

-- A device 1-3 with one interface, and a backend that exports it.
abbrev device : Device
device = record zero_device { busnum = 1; devnum = 3; num_interfaces = 1 }

abbrev host : Host World
host = record (test_host []) {
  backend = record test_backend {
    get_devices = λ n w. device ∷ [];
    get_device_by_busid = λ b w. some device;
  };
}

host-IsQuiet : IsQuiet host
host-IsQuiet = record {
  malloc_pending = λ n w. refl;
  malloc_sent = λ n w. refl;
  calloc_pending = λ w. refl;
  calloc_sent = λ w. refl;
  stream_pending = λ w. refl;
  stream_sent = λ w. refl;
  task_pending = λ i w. refl;
  delay_pending = λ w. refl;
}

abbrev config : ServerConfig
config = record { max_devices = 4; max_transfer = 4096; rounds = 1; requests = 2 }

abbrev client : World
client = record { inbox = replicate 32 49; outbox = [] }

length-fill_wire_device_desc_example : length (fill_wire_device_desc device) ≡ 312
length-fill_wire_device_desc_example = length-fill_wire_device_desc device refl refl

make_devid-injective_example : (device.busnum ≡ device.busnum) × (device.devnum ≡ device.devnum)
make_devid-injective_example =
    make_devid-injective device device (omega arith) (omega arith) (omega arith) (omega arith) refl

-- A virtual device, and the table with it.
abbrev virtual : VirtualDevice (VirtualOps World)
virtual = record { address = 1; desc = zero_device; ops = some test_ops }

empty-IsValid : IsValid {O = VirtualOps World} []
empty-IsValid = record { room = omega arith; numbered = tt }

abbrev table : Registry (VirtualOps World)
table = (register (some virtual) []).1

table-IsValid : IsValid table
table-IsValid = elim (register-IsValid virtual [] empty-IsValid) [
  | inl v ↦ v
  | inr (_, again, _) ↦ absurd (unfold is_registered in ground (arith, again))
]

-- The same device once more.
register-IsValid_example :
    let (err, r') = register (some virtual) table in
    IsValid r' ⊎ ((err ≡ esp_ok) × (is_registered 1 table ≡ true) × (¬ IsValid r'))
register-IsValid_example = register-IsValid virtual table table-IsValid
