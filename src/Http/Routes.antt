-- ===== src/Http/Routes.antt =====
-- main/http_server.c: `handle_connection`, from the request to the handler.
use esp_usbip_bridge.Base.{
  ℕ, ◌-◌, ◌+◌, List, [], ◌++◌, Option, none, some, not, ◌&&◌, ◌||◌, length, take, drop, ◌==◌, leb,
  ltb, if◌then◌else◌, codes, bytes_eq, c_string, starts,
}
use esp_usbip_bridge.Http.Stream.{Stream, stream_begin, stream_end}
use esp_usbip_bridge.Http.Json.{strstr, strchr, path_after}
use esp_usbip_bridge.Http.Requests.{
  Reader, Request, http_buf_size, read_head, parse_request, body_capacity, read_body,
}
use esp_usbip_bridge.Http.Host.{
  HttpHost, HttpConfig, HttpState, send_text, http_404, http_400, http_405, http_500,
}
use esp_usbip_bridge.Device.{Device}
use esp_usbip_bridge.Http.Pins.{Pins}
use esp_usbip_bridge.Http.Lists.{JsonBuf, build_pins_json, build_devices_json}
use esp_usbip_bridge.Http.Config.{handle_get_config, handle_post_config}
use esp_usbip_bridge.Http.Handlers.{
  handle_get_pin, handle_post_pin, toggle_pin, get_hostname_page, get_board_id_page, post_hostname,
  post_board_id, post_device_name, clear_config,
}

-- The HTML of the page, which is not modelled, and `usb_backend_get_devices` into an array for all devices.
pub record Pages (W : Type 0) : Type 0 where
  pub stream_html_page : HttpState → Stream → W → Stream × W
  pub devices : W → List Device

-- The bus id of `/api/devices/<busid>/name`, if it is one of 1 to 31 characters.
unfoldable pub device_of : List ℕ → Option (List ℕ)
unfolding path_after strstr starts
device_of url = elim (path_after url (codes "/api/devices/")) [
  | none ↦ none
  | some rest ↦ elim (strstr (codes "/name") rest) [
    | none ↦ none
    | some slash ↦
        let busid = take (length rest - length slash) rest in
        let last = drop 5 slash in
        if (length last == 0 || starts (codes "/") last)
          && (ltb 0 (length busid) && ltb (length busid) 32)
        then some busid
        else none
  ]
]

module _ {W : Type 0} (h : HttpHost W) (r : Reader W) (pages : Pages W) (cfg : HttpConfig) where
  -- `GET /`.
  unfoldable pub get_page : HttpState → W → W
  get_page st w =
      let n = cfg.interruptions in
      let (s1, w1) =
        stream_begin h.sock n (codes "text/html; charset=utf-8") (h.neopixel_show_white_10s w) in
      let (s2, w2) = pages.stream_html_page st s1 w1 in (stream_end h.sock n s2 w2).1

  -- `send_json_ok` of a list in a buffer of so many bytes, if there is one.
  unfoldable pub get_text : ℕ → (W → JsonBuf × W) → W → W
  get_text size build w =
      let (allocated, w1) = r.malloc size w in
      let (b, w2) = build w1 in if allocated then send_text h cfg b.json w2 else http_500 h cfg w1

  -- The lists of `GET /api/pins` and `GET /api/devices`. `array_size` is the size of the array in bytes.
  unfoldable pub pins_list : Pins → W → JsonBuf × W
  unfolding build_pins_json
  pins_list pins w = (build_pins_json h cfg 8192 pins w, w)

  unfoldable pub devices_list : ℕ → W → JsonBuf × W
  unfolding build_devices_json
  devices_list array_size w =
      let (allocated, w1) = r.malloc array_size w in
      build_devices_json h cfg 4096 allocated (pages.devices w1) w1

  -- `/api/pins/<name>` and `/api/pins/<name>/toggle`.
  unfoldable pub pin_routes : List ℕ → List ℕ → List ℕ → HttpState → W → HttpState × W
  unfolding strchr handle_get_pin handle_post_pin toggle_pin
  pin_routes method rest body st w =
      let toggled : HttpState × W = elim (strchr b'/' rest) [
        | none ↦ handle_post_pin h cfg rest body st w
        | some slash ↦
            let name = take (length rest - length slash) rest in
            if not (bytes_eq slash (codes "/toggle"))
            then (st, http_404 h cfg w)
            else if leb 32 (length name)
            then (st, http_400 h cfg (codes "Name too long") w)
            else toggle_pin h cfg name st w
      ] in
      if bytes_eq method (codes "GET")
      then (st, handle_get_pin h cfg rest st w)
      else if not (bytes_eq method (codes "POST"))
      then (st, http_405 h cfg w)
      else toggled

  -- The URLs with a part that varies.
  unfoldable pub prefix_routes : Request → List ℕ → HttpState → W → HttpState × W
  unfolding pin_routes path_after device_of
  prefix_routes req body st w =
      let pins : HttpState × W = elim (path_after req.url (codes "/api/pins/")) [
        | none ↦ (st, http_404 h cfg w)
        | some rest ↦ pin_routes req.method rest body st w
      ] in
      elim (device_of req.url) [
        | none ↦ pins
        | some busid ↦
            if bytes_eq req.method (codes "POST")
            then post_device_name h cfg busid body st w
            else pins
      ]

  unfoldable pub route : ℕ → Request → List ℕ → HttpState → W → HttpState × W
  unfolding get_page get_text prefix_routes get_hostname_page get_board_id_page post_hostname
      post_board_id clear_config
  route array_size req body st w =
      let is_url = λ (url : List ℕ). bytes_eq req.url url in
      let is_get = bytes_eq req.method (codes "GET") in
      let is_post = bytes_eq req.method (codes "POST") in
      if is_url (codes "/") && is_get
      then (st, get_page st w)
      else if is_url (codes "/api/pins") && is_get
      then (st, get_text 8192 (pins_list st.pins) w)
      else if is_url (codes "/api/devices") && is_get
      then (st, get_text 4096 (devices_list array_size) w)
      else if is_url (codes "/api/hostname") && is_get
      then (st, get_hostname_page h cfg w)
      else if is_url (codes "/api/hostname") && is_post
      then post_hostname h cfg body st w
      else if is_url (codes "/api/board_id") && is_get
      then (st, get_board_id_page h cfg w)
      else if is_url (codes "/api/board_id") && is_post
      then post_board_id h cfg body st w
      else if is_url (codes "/api/config") && is_get
      then (st, (handle_get_config h cfg st w).1)
      else if is_url (codes "/api/config") && is_post
      then handle_post_config h cfg body st w
      else if is_url (codes "/api/config/clear") && is_post
      then clear_config h cfg st w
      else prefix_routes req body st w

  -- `handle_connection`.
  unfoldable pub handle_connection : ℕ → HttpState → W → HttpState × W
  unfolding route read_head parse_request read_body body_capacity
  handle_connection array_size st w =
      let (allocated, w1) = r.malloc http_buf_size w in
      let (head, w2) = read_head r (http_buf_size + 1) [] w1 in
      let served : HttpState × W = elim head [
        | none ↦ (st, w2)
        | some bytes ↦
            let text = c_string (bytes ++ r.leftover w1) in
            let answered : HttpState × W = elim (parse_request bytes text) [
              | none ↦ (st, http_400 h cfg (codes "Bad request") w2)
              | some req ↦
                  let (room, w3) = r.malloc (body_capacity r req.content_length) w2 in
                  let (body, w4) = read_body r bytes (r.leftover w1) req.content_length w3 in
                  if room
                  then route array_size req (c_string body) st w4
                  else (st, http_500 h cfg w3)
            ] in
            if length bytes == 0 then (st, w2) else answered
      ] in
      if allocated then served else (st, w1)
