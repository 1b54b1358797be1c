-- ===== src/Server/Reply.antt =====
-- main/usbip_server.c: `send_op_common`, `send_ret_submit` and `send_ret_unlink`.
pub mod Laws
use esp_usbip_bridge.Base.{
  ℕ, ◌+◌, List, ◌++◌, Option, none, some, Bool, true, false, take, replicate, be32, ltb,
  if◌then◌else◌,
}
use esp_usbip_bridge.Errno.{Status, status_word}
use esp_usbip_bridge.Protocol.{Header, header_size, ret_submit, ret_unlink, echoed, op_common}
use esp_usbip_bridge.Socket.{Socket, write_all}
use esp_usbip_bridge.Server.Host.{Host}

-- The reply header of a submit: the request's basic part with another command, then the status, the
-- length, and zeros.
unfoldable pub ret_submit_header : Header → Status → ℕ → Header
unfolding be32
ret_submit_header request status payload_len =
    be32 ret_submit
    ++ (echoed request ++ (be32 (status_word status) ++ (be32 payload_len ++ replicate 20 0)))

unfoldable pub ret_unlink_header : Header → Status → Header
unfolding be32
ret_unlink_header request status =
    be32 ret_unlink ++ (echoed request ++ (be32 (status_word status) ++ replicate 24 0))

module _ {W : Type 0} (h : Host W) where
  unfoldable pub send_op_common : ℕ → ℕ → W → Bool × W
  send_op_common code status w = write_all h.sock (op_common code status) w

  -- Header and payload go out in one buffer. The payload is `none` for NULL.
  unfoldable pub send_ret_submit : Header → Status → Option (List ℕ) → ℕ → W → Bool × W
  send_ret_submit request status none len w =
      write_all h.sock (ret_submit_header request status len) w
  send_ret_submit request status (some payload) len w =
      let (got, w1) = h.malloc (header_size + len) w in
      if ltb 0 len
      then elim got [
        | true ↦ write_all h.sock (ret_submit_header request status len ++ take len payload) w1
        | false ↦ (false, w1)
      ]
      else write_all h.sock (ret_submit_header request status len) w

  unfoldable pub send_ret_unlink : Header → Status → W → Bool × W
  send_ret_unlink request status w = write_all h.sock (ret_unlink_header request status) w
