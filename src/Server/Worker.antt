-- ===== src/Server/Worker.antt =====
-- main/usbip_server.c: `urb_worker_task`, the transfer of one request and its answer.
use esp_usbip_bridge.Base.{
  ℕ, ◌+◌, List, [], Option, none, some, Bool, ◌&&◌, length, ltb, ◌==◌, if◌then◌else◌, u8,
}
use esp_usbip_bridge.Errno.{Status, failure, Errno, is_success}
use esp_usbip_bridge.Protocol.{direction, ep, setup, dir_in}
use esp_usbip_bridge.Registry.{VirtualDevice, find_by_busid}
use esp_usbip_bridge.Server.Host.{Host, WorkItem, VirtualOps}
use esp_usbip_bridge.Server.Slots.{StreamCtx, urb_stream_free_slot}
use esp_usbip_bridge.Server.Reply.{send_ret_submit}

-- `(uint8_t)(endpoint | (direction == USBIP_DIR_IN ? 0x80 : 0x00))`.
unfoldable pub endpoint_address : ℕ → Bool → ℕ
endpoint_address endpoint is_in =
    let low = u8 endpoint in if is_in && ltb low 128 then low + 128 else low

module _ {W : Type 0} (h : Host W) where
  -- The call of a virtual device. A registered device has operations (`register_outcome`).
  unfoldable pub virtual_transfer : Option (VirtualOps W) → WorkItem → W → Status × List ℕ × W
  unfolding endpoint_address
  virtual_transfer none i w = (failure Errno.epipe, [], w)
  virtual_transfer (some ops) i w =
      if ep i.request == 0
      then ops.control_transfer (setup i.request) i.out_data i.in_capacity w
      else ops.data_transfer (endpoint_address (ep i.request) (direction i.request == dir_in))
          i.out_data i.in_capacity w

  unfoldable pub backend_transfer : WorkItem → W → Status × List ℕ × W
  unfolding endpoint_address
  backend_transfer i w =
      let is_in = direction i.request == dir_in in
      let addr = endpoint_address (ep i.request) is_in in
      if ep i.request == 0
      then h.backend.control_transfer i.imported_busid (setup i.request) i.out_data i.in_capacity
          i.item w
      else if h.backend.is_interrupt_endpoint i.imported_busid (u8 (ep i.request)) is_in w
      then h.backend.interrupt_transfer i.imported_busid addr i.out_data i.in_capacity i.item w
      else h.backend.bulk_transfer i.imported_busid addr i.out_data i.in_capacity i.item w

  unfoldable pub transfer :
      Option (VirtualDevice (VirtualOps W)) → WorkItem → W → Status × List ℕ × W
  unfolding virtual_transfer backend_transfer
  transfer none i w = backend_transfer i w
  transfer (some dev) i w = virtual_transfer dev.ops i w

  -- What is sent behind the reply header: the IN buffer (NULL if it has no capacity) after a
  -- successful IN transfer, and else nothing.
  unfoldable pub reply_payload : WorkItem → Status → List ℕ → Option (List ℕ) × ℕ
  reply_payload i status bytes =
      if is_success status && direction i.request == dir_in
      then (if i.in_capacity == 0 then none else some bytes, length bytes)
      else (none, 0)

  -- The whole task: the transfer, the answer (whose failure is ignored) and the release of the slot.
  -- It ends with `vTaskDelete(NULL)`, which deletes the task that runs it.
  unfoldable pub urb_worker_task : WorkItem → StreamCtx → W → StreamCtx × W
  unfolding transfer reply_payload
  urb_worker_task i c w =
      let (status, bytes, w1) =
        transfer (find_by_busid (some i.imported_busid) (h.registry w)) i w in
      let (payload, len) = reply_payload i status bytes in
      let (_, w2) = send_ret_submit h i.request status payload len w1 in
      (urb_stream_free_slot c i.slot, w2)
