-- ===== src/Server/Host.antt =====
-- What the server calls: the socket, the allocator, the scheduler, the virtual devices' operations
-- and the USB backend. `W` is the state of all of them, the registry of virtual devices included.
use esp_usbip_bridge.Base.{ℕ, ◌≡◌, List, Option, Bool}
use esp_usbip_bridge.Errno.{Status}
use esp_usbip_bridge.Device.{Device}
use esp_usbip_bridge.Socket.{Socket}
use esp_usbip_bridge.Registry.{Registry}

-- `urb_work_item_t`. `item` stands for the address of its cancel flag. `out_data` is NULL just when
-- it is empty, and `in_data` just when `in_capacity` is 0.
pub record WorkItem : Type 0 where
  pub request : List ℕ
  pub imported_busid : List ℕ
  pub expected_devid : ℕ
  pub item : ℕ
  pub out_data : List ℕ
  pub in_capacity : ℕ
  pub slot : ℕ

-- `virtual_device_ops_t`, with the device: the status, the bytes put into the IN buffer of the
-- given capacity (`*in_len` is their number), and the state after the call.
pub record VirtualOps (W : Type 0) : Type 0 where
  pub control_transfer : List ℕ → List ℕ → ℕ → W → Status × List ℕ × W
  pub data_transfer : ℕ → List ℕ → ℕ → W → Status × List ℕ × W

-- The operations of main/usb_backend.h that the server uses. The last number of a transfer is the
-- work item that holds the cancel flag.
pub record Backend (W : Type 0) : Type 0 where
  pub control_transfer : List ℕ → List ℕ → List ℕ → ℕ → ℕ → W → Status × List ℕ × W
  pub bulk_transfer : List ℕ → ℕ → List ℕ → ℕ → ℕ → W → Status × List ℕ × W
  pub interrupt_transfer : List ℕ → ℕ → List ℕ → ℕ → ℕ → W → Status × List ℕ × W
  pub is_interrupt_endpoint : List ℕ → ℕ → Bool → W → Bool
  pub get_devices : ℕ → W → List Device
  pub get_device_by_busid : List ℕ → W → Option Device

pub record Host (W : Type 0) : Type 0 where
  pub sock : Socket W
  -- Whether `malloc` of so many bytes succeeds, and `calloc` of a work item.
  pub malloc : ℕ → W → Bool × W
  pub calloc_item : W → Bool × W
  -- `calloc` of a stream's context and the creation of its mutex: whether both succeed.
  pub calloc_stream : W → Bool × W
  -- `xTaskCreate(urb_worker_task, ...)`.
  pub task_create : WorkItem → W → Bool × W
  -- `vTaskDelay`, with the slots that workers free meanwhile.
  pub delay : W → List ℕ × W
  pub registry : W → Registry (VirtualOps W)
  pub backend : Backend W

-- The allocator and the creation of a task leave the client's byte streams alone.
pub record IsQuiet {W : Type 0} (h : Host W) : Type 0 where
  pub malloc_pending : (n : ℕ) (w : W) → h.sock.pending (h.malloc n w).1 ≡ h.sock.pending w
  pub malloc_sent : (n : ℕ) (w : W) → h.sock.sent (h.malloc n w).1 ≡ h.sock.sent w
  pub calloc_pending : (w : W) → h.sock.pending (h.calloc_item w).1 ≡ h.sock.pending w
  pub calloc_sent : (w : W) → h.sock.sent (h.calloc_item w).1 ≡ h.sock.sent w
  pub stream_pending : (w : W) → h.sock.pending (h.calloc_stream w).1 ≡ h.sock.pending w
  pub stream_sent : (w : W) → h.sock.sent (h.calloc_stream w).1 ≡ h.sock.sent w
  pub task_pending :
      (i : WorkItem) (w : W) → h.sock.pending (h.task_create i w).1 ≡ h.sock.pending w
  pub delay_pending : (w : W) → h.sock.pending (h.delay w).1 ≡ h.sock.pending w
