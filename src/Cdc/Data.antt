-- ===== src/Cdc/Data.antt =====
-- main/virtual_cdc.c, `cdc_data_transfer`.
use esp_usbip_bridge.Base.{ℕ, ◌≤◌, ◌≡◌, ◌≢◌, List, [], length, arith, ◌⊎◌}
use esp_usbip_bridge.Errno.{success, failure, Errno}
use esp_usbip_bridge.Cdc.{CdcCtx, StreamBuffers, cdc_data_transfer}

module _ {B : Type 0} (buffers : StreamBuffers B) where
  -- With a stream buffer that returns no more bytes than asked for, a data transfer fits the IN
  -- buffer, and is one of five: OUT data on the OUT endpoint, which changes nothing but `rx` and
  -- returns no byte; nothing on the OUT endpoint, which changes nothing and returns no byte; on the
  -- IN endpoint, the next bytes of `tx`; on the notification endpoint, success with no byte and no
  -- change; on any other endpoint, a stall with neither.
  pub data_transfer_lem :
      (c : CdcCtx B) (ep_addr : ℕ) (out_data : List ℕ) (room : ℕ)
      → length (buffers.stream_receive room c.tx).0 ≤ room
      → let (status, bytes, c') = cdc_data_transfer buffers c ep_addr out_data room in
        (length bytes ≤ room)
        × (((ep_addr ≡ c.bulk_out_ep)
              × (out_data ≢ [])
              × (bytes ≡ [])
              × (c' ≡ record c { rx = (buffers.stream_send out_data c.rx).1 }))
            ⊎ (((ep_addr ≡ c.bulk_out_ep) × (out_data ≡ []) × (bytes ≡ []) × (c' ≡ c))
                ⊎ (((ep_addr ≡ c.bulk_in_ep)
                      × (bytes ≡ (buffers.stream_receive room c.tx).0)
                      × (c' ≡ record c { tx = (buffers.stream_receive room c.tx).1 }))
                    ⊎ (((ep_addr ≡ c.notify_ep) × (status ≡ success) × (bytes ≡ []) × (c' ≡ c))
                        ⊎ ((ep_addr ≢ c.bulk_out_ep)
                            × (ep_addr ≢ c.bulk_in_ep)
                            × (ep_addr ≢ c.notify_ep)
                            × (status ≡ failure Errno.epipe)
                            × (bytes ≡ [])
                            × (c' ≡ c))))))
  unfolding cdc_data_transfer
  data_transfer_lem c ep_addr out_data room fits = ground arith
