-- ===== src/Server/Reply/Laws.antt =====
-- What a reply header says, read back as the client reads it.
use esp_usbip_bridge.Base.{
  ℕ, zero, suc, ◌+◌, ◌<◌, ◌≡◌, refl, ◌∙◌, List, [], ◌++◌, Option, none, some, true, length, get_or,
  get_or-append_left, get_or-append_right, get_or-take, get_or-drop, take, drop, replicate,
  length-append, length-take, length-drop, be32, read32, arith, append-nil, subst,
}
use esp_usbip_bridge.Errno.{Status, success, failure, status_word}
use esp_usbip_bridge.Protocol.{Header, echoed, command, seqnum, devid, direction, ep, ret_submit}
use esp_usbip_bridge.Socket.{IsStream}
use esp_usbip_bridge.Socket.Laws.{write_all-true, write_all_pending}
use esp_usbip_bridge.Server.Host.{Host, IsQuiet}
use esp_usbip_bridge.Server.Reply.{
  ret_submit_header, ret_unlink_header, send_ret_submit, send_ret_unlink,
}

length-echoed : (request : Header) → length request ≡ 48 → length (echoed request) ≡ 16
length-echoed request e = omega (arith, length-take 16 (drop 4 request), length-drop 4 request)

echoed_byte :
    (request rest : List ℕ) (j : ℕ)
    → length request ≡ 48
    → j < 16
    → get_or (echoed request ++ rest) j 0 ≡ get_or request (4 + j) 0
echoed_byte request rest j e h =
    get_or-append_left (echoed request) rest j 0 (omega (arith, length-echoed request e))
    ∙ get_or-take (drop 4 request) 16 j 0 h
    ∙ get_or-drop request 4 j 0

behind_byte :
    (request rest : List ℕ) (j : ℕ)
    → length request ≡ 48
    → get_or (echoed request ++ rest) (16 + j) 0 ≡ get_or rest j 0
behind_byte request rest j e =
    subst (λ n. get_or (echoed request ++ rest) (n + j) 0 ≡ get_or rest j 0)
      (length-echoed request e) (get_or-append_right (echoed request) rest j 0)

status_word-lt : (s : Status) → status_word s < 4294967296
unfolding status_word
status_word-lt success = omega arith
status_word-lt (failure e) = ground arith

-- The reply header of a 48-byte request, for a length below 2^32, has 48 bytes and the command
-- `USBIP_RET_SUBMIT`, carries the request's sequence number, device id, direction and endpoint, and
-- then the status and the length.
pub ret_submit_header_lem :
    (request : Header) (status : Status) (len : ℕ)
    → length request ≡ 48
    → len < 4294967296
    → let reply = ret_submit_header request status len in
      (length reply ≡ 48)
      × (command reply ≡ ret_submit)
      × (seqnum reply ≡ seqnum request)
      × (devid reply ≡ devid request)
      × (direction reply ≡ direction request)
      × (ep reply ≡ ep request)
      × (read32 reply 20 ≡ status_word status)
      × (read32 reply 24 ≡ len)
unfolding ret_submit_header read32 be32
ret_submit_header_lem request status len e h =
    let rest = be32 (status_word status) ++ (be32 len ++ replicate 20 0) in
    (
      omega (arith, length-append (echoed request) rest, length-echoed request e),
      refl,
      omega (
        arith,
        echoed_byte request rest 0 e,
        echoed_byte request rest 1 e,
        echoed_byte request rest 2 e,
        echoed_byte request rest 3 e,
      ),
      omega (
        arith,
        echoed_byte request rest 4 e,
        echoed_byte request rest 5 e,
        echoed_byte request rest 6 e,
        echoed_byte request rest 7 e,
      ),
      omega (
        arith,
        echoed_byte request rest 8 e,
        echoed_byte request rest 9 e,
        echoed_byte request rest 10 e,
        echoed_byte request rest 11 e,
      ),
      omega (
        arith,
        echoed_byte request rest 12 e,
        echoed_byte request rest 13 e,
        echoed_byte request rest 14 e,
        echoed_byte request rest 15 e,
      ),
      omega (
        arith,
        behind_byte request rest 0 e,
        behind_byte request rest 1 e,
        behind_byte request rest 2 e,
        behind_byte request rest 3 e,
        status_word-lt status,
      ),
      omega (
        arith,
        behind_byte request rest 4 e,
        behind_byte request rest 5 e,
        behind_byte request rest 6 e,
        behind_byte request rest 7 e,
      ),
    )

module _ {W : Type 0} (h : Host W) (law : IsStream h.sock) (quiet : IsQuiet h) where
  -- A submit's answer that is sent whole is its header and the payload, and nothing is read.
  pub send_ret_submit-true :
      (request : Header) (status : Status) (payload : Option (List ℕ)) (len : ℕ) (w : W)
      → let (ok, w') = send_ret_submit h request status payload len w in
        (h.sock.pending w' ≡ h.sock.pending w)
        × (ok ≡ true
            → h.sock.sent w'
              ≡ h.sock.sent w
                ++ (ret_submit_header request status len
                    ++ elim payload [ none ↦ [] | some bytes ↦ take len bytes ]))
  unfolding send_ret_submit
  send_ret_submit-true request status none len w = ground (
    arith,
    write_all_pending h.sock law (ret_submit_header request status len) w,
    write_all-true h.sock law (ret_submit_header request status len) w,
    append-nil (ret_submit_header request status len),
  )
  send_ret_submit-true request status (some bytes) zero w = ground (
    arith,
    write_all_pending h.sock law (ret_submit_header request status 0) w,
    write_all-true h.sock law (ret_submit_header request status 0) w,
    append-nil (ret_submit_header request status 0),
  )
  send_ret_submit-true request status (some bytes) (suc n) w =
      let reply = ret_submit_header request status (suc n) ++ take (suc n) bytes in
      let w1 = (h.malloc (48 + suc n) w).1 in
      ground (
        arith,
        write_all_pending h.sock law reply w1,
        write_all-true h.sock law reply w1,
        quiet.malloc_pending (48 + suc n) w,
        quiet.malloc_sent (48 + suc n) w,
      )

  -- An unlink's answer that is sent whole is its header, and nothing is read.
  pub send_ret_unlink-true :
      (request : Header) (status : Status) (w : W)
      → let (ok, w') = send_ret_unlink h request status w in
        (h.sock.pending w' ≡ h.sock.pending w)
        × (ok ≡ true → h.sock.sent w' ≡ h.sock.sent w ++ ret_unlink_header request status)
  unfolding send_ret_unlink
  send_ret_unlink-true request status w = ground (
    arith,
    write_all_pending h.sock law (ret_unlink_header request status) w,
    write_all-true h.sock law (ret_unlink_header request status) w,
  )
