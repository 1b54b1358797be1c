-- ===== src/Registry.antt =====
-- main/virtual_device.c: the table of the virtual devices. `s_devices[0 .. s_device_count)` is a
-- list of at most four devices, each with the address that is the pointer in the table and with what it
-- points at; `O` is the type of a device's operations, `virtual_device_ops_t` with the context that
-- they work on.
pub mod Laws
use esp_usbip_bridge.Base.{
  ℕ, zero, suc, ◌+◌, List, [], ◌∷◌, ◌++◌, Option, none, some, Bool, true, ◌||◌, not, is_some,
  length, leb, ◌==◌, if◌then◌else◌, c_string, padded, bytes_eq, codes, busid_text, store_text,
}
use esp_usbip_bridge.Device.{Device}
use esp_usbip_bridge.Esp.{EspErr, esp_ok, esp_err_invalid_arg, esp_err_no_mem}

abbrev pub virtual_device_max : ℕ
virtual_device_max = 4

abbrev pub virtual_device_busnum : ℕ
virtual_device_busnum = 2

-- `virtual_device_t` at its address. `ops` may be NULL.
pub record VirtualDevice (O : Type 0) : Type 0 where
  pub address : ℕ
  pub ops : Option O
  pub desc : Device

abbrev pub Registry : Type 0 → Type 0
Registry O = List (VirtualDevice O)

-- The bus id and the path that a new device is given.
unfoldable pub assign_busid : ℕ → Device → Device
assign_busid devnum d = record d {
  present = true;
  busnum = virtual_device_busnum;
  devnum = devnum;
  busid = store_text 32 (busid_text virtual_device_busnum devnum) d.busid;
  path = store_text 256 (codes "/esp-virtual/" ++ busid_text virtual_device_busnum devnum) d.path;
}

-- `busid_matches_key`, and the comparison in `virtual_device_find_by_busid`: the stored bus id,
-- padded with NULs, against the 32 bytes that the client sent.
unfoldable pub busid_matches_key : List ℕ → List ℕ → Bool
busid_matches_key key stored = bytes_eq key (padded 32 (c_string stored))

module _ {O : Type 0} where
  -- The device at an address is written: every entry that points there shows it.
  unfoldable pub write_device : VirtualDevice O → Registry O → Registry O
  write_device dev [] = []
  write_device dev (d ∷ ds) = (if d.address == dev.address then dev else d) ∷ write_device dev ds

  -- `dev` is the pointer that is passed, with what it points at. Its description is written in place, and
  -- the pointer goes to the end of the table.
  unfoldable pub register : Option (VirtualDevice O) → Registry O → EspErr × Registry O
  unfolding write_device
  register none r = (esp_err_invalid_arg, r)
  register (some dev) r =
      let dev' : VirtualDevice O = record dev { desc = assign_busid (length r + 1) dev.desc } in
      if not (is_some dev.ops)
      then (esp_err_invalid_arg, r)
      else if leb virtual_device_max (length r)
      then (esp_err_no_mem, r)
      else (esp_ok, write_device dev' r ++ (dev' ∷ []))

  unfoldable pub find_loop : List ℕ → Registry O → Option (VirtualDevice O)
  find_loop busid [] = none
  find_loop busid (d ∷ ds) =
      let rest = find_loop busid ds in if busid_matches_key busid d.desc.busid then some d else rest

  unfoldable pub find_by_busid : Option (List ℕ) → Registry O → Option (VirtualDevice O)
  unfolding find_loop
  find_by_busid none r = none
  find_by_busid (some busid) r = find_loop busid r

  -- The devices that are copied into an array of `max_devices`.
  unfoldable pub get_all : ℕ → Registry O → List Device
  get_all zero r = []
  get_all (suc n) [] = []
  get_all (suc n) (d ∷ ds) = d.desc ∷ get_all n ds
