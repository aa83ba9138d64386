-- ===== src/Request/Answered.antt =====
-- A GET request that is answered.
use esp_dmx.Prelude.{
  ℕ, ◌<◌, ◌≡◌, refl, ap, ◌∙◌, Bool, true, false, Option, some, none, List, arith, ◌==◌, ◌>>=◌,
  if◌then◌else◌, length, take, write_at,
}
use esp_dmx.Uid.{Uid, uid_is_broadcast}
use esp_dmx.Format.{format_is_valid}
use esp_dmx.Packet.{Header, IsHeader, cc_is_valid, cc_is_request, response_type_is_valid}
use esp_dmx.Packet.Read.{read_header}
use esp_dmx.Packet.Write as Codec
use esp_dmx.Packet.Payload.{read_header-write_empty}
use esp_dmx.Buffer.{sending, idle}
use esp_dmx.Send.{Driver, send}
use esp_dmx.Send.Sizes.{IsReady, sent}
use esp_dmx.Receive.{Packet}
use esp_dmx.Request.{
  Request, RdmAck, pdl_is, World, Outcome, request_header, request_is_ok, send_request, exchange,
  on_sent, on_response, results, ack_value, read_to, value_of, write_back,
}
use esp_dmx.Request.Sent.{old_of, read-old, write_back-old}

-- A request without parameter data.
abbrev pub get_request : Uid → ℕ → ℕ → Request
get_request dest sub_device pid = record {
  dest_uid = dest;
  sub_device = sub_device;
  cc = 0x20;
  pid = pid;
  format = none;
  pd = none;
  pdl = 0;
}

-- A device, or one of its sub-devices, can be asked for the parameter, and the port may send.
pub record CanAsk (w : World) (dest : Uid) (sub_device pid : ℕ) (d : Driver) : Type 0 where
  pub taken : w.mutex_taken ≡ true
  pub is_sent : w.is_sent ≡ true
  pub ready : IsReady w.sending d true
  pub one_device : uid_is_broadcast dest ≡ false
  pub sub_device_fits : sub_device < 513
  pub pid_pos : 0 < pid
  pub header : IsHeader (request_header w (get_request dest sub_device pid) d.tn)
  pub port_fits : w.dmx_num < 255
  pub buffer_fits : length d.data_ ≡ 513

-- What the bus answers to a request with the header `h`, in whatever driver sends it.
pub record Answers (w : World) (h : Header) (packet : Packet) (d : Driver) (r : Header)
    : Type 0 where
  pub answered_by :
      (k : Driver)
      → read_header k.data_ ≡ some h
      → k.status ≡ sending
      → w.receive k ≡ some (packet, d)
  pub some_slots : (packet.size == 0) ≡ false
  pub is_rdm : read_header d.data_ ≡ some r
  pub is_ack : r.port_id ≡ 0
  pub idle_again : d.status ≡ idle

null_valid : format_is_valid none ≡ some true
unfolding format_is_valid
null_valid = refl

header_ok :
    (w : World) (dest : Uid) (sub_device pid : ℕ) (d : Driver)
    → CanAsk w dest sub_device pid d
    → Codec.header_is_ok (request_header w (get_request dest sub_device pid) d.tn) ≡ true
unfolding Codec.header_is_ok cc_is_valid cc_is_request
header_ok w dest sub_device pid d c =
    let low = c.sub_device_fits in let port = c.port_fits in ground arith

-- The request as it is on the bus when the driver begins to receive.
request-sent :
    (w : World) (dest : Uid) (sub_device pid : ℕ) (d : Driver)
    → CanAsk w dest sub_device pid d
    → let h = request_header w (get_request dest sub_device pid) d.tn in
      (buf : List ℕ) × (d' : Driver) × (Codec.write w.fuel h none none d.data_ ≡ some (26, buf))
      × (send w.sending w.spacing (record d { data_ = buf }) ≡ some (26, d'))
      × (read_header d'.data_ ≡ some h)
      × (d'.status ≡ sending)
unfolding send cc_is_valid cc_is_request
request-sent w dest sub_device pid d c =
    let h = request_header w (get_request dest sub_device pid) d.tn in
    let (buf, wrote, _, reads) =
      read_header-write_empty w.fuel h none none d.data_
        (header_ok w dest sub_device pid d c, null_valid, refl, refl) c.header refl c.buffer_fits in
    let (d', sends, status, _, _, _, kept, _) =
      sent w.sending w.spacing (record d { data_ = buf }) h 513 reads refl refl
        record {
          taken = c.ready.taken;
          quiet = c.ready.quiet;
          wakes = c.ready.wakes;
          in_time = c.ready.in_time;
        } in
    (buf, d', wrote, sends, ap read_header kept ∙ reads, status)

-- The acknowledgement that describes a response.
abbrev pub acknowledged : Packet → Header → RdmAck
acknowledged packet r = record {
  err = packet.err;
  size = packet.size;
  src_uid = r.src_uid;
  pid = r.pid;
  kind = 0;
  message_count = r.message_count;
  value = pdl_is r.pdl;
}

module _ (w : World) (format : Option (List ℕ)) (size : ℕ) (memory memory' : Option (List ℕ))
    (packet : Packet) (d : Driver) (r : Header) where
  ack_value-ack :
      r.port_id ≡ 0
      → read_to w format size memory d ≡ some memory'
      → ack_value w format size memory d r ≡ some (0, pdl_is r.pdl, memory')
  unfolding ack_value response_type_is_valid
  ack_value-ack e f = rw (e, f) refl

  results-ack :
      (wanted : Bool)
      → r.port_id ≡ 0
      → read_to w format size memory d ≡ some memory'
      → results w format size memory wanted packet d r
        ≡ some (
          if wanted then some (acknowledged packet r) else none,
          if wanted then memory' else memory,
        )
  unfolding results
  results-ack true e f =
      ap
        (λ o. o >>= λ (kind, value, m). some (
          some (record {
            err = packet.err;
            size = packet.size;
            src_uid = r.src_uid;
            pid = r.pid;
            kind = kind;
            message_count = r.message_count;
            value = value;
          }),
          m,
        ))
        (ack_value-ack e f)
  results-ack false e f = refl

  value_of-ack : r.port_id ≡ 0 → value_of r ≡ (if r.pdl == 0 then 1 else r.pdl)
  value_of-ack e = rw e refl

  on_response-ack :
      (wanted : Bool) (old : List ℕ) (n : ℕ) (d' : Driver)
      → (packet.size == 0) ≡ false
      → read_header d.data_ ≡ some r
      → r.port_id ≡ 0
      → read_to w format size memory d ≡ some memory'
      → write_back old n d ≡ some d'
      → on_response w format size memory wanted old n packet d
        ≡ some (record {
          returned = if r.pdl == 0 then 1 else r.pdl;
          memory = if wanted then memory' else memory;
          rdm_ack = if wanted then some (acknowledged packet r) else none;
          driver = d';
        })
  unfolding on_response
  on_response-ack wanted old n d' a b e f g =
      simp (a, b, results-ack wanted e f, g, value_of-ack e) refl

request_ok :
    (w : World) (dest : Uid) (sub_device pid : ℕ) (d : Driver)
    → CanAsk w dest sub_device pid d
    → request_is_ok (get_request dest sub_device pid) ≡ true
unfolding request_is_ok cc_is_valid cc_is_request
request_ok w dest sub_device pid d c =
    let low = c.sub_device_fits in let pos = c.pid_pos in ground arith

exchange-get :
    (w : World) (dest : Uid) (sub_device pid size : ℕ) (format memory memory' : Option (List ℕ))
    (wanted : Bool) (d answered restored : Driver) (packet : Packet) (r : Header)
    → CanAsk w dest sub_device pid d
    → Answers w (request_header w (get_request dest sub_device pid) d.tn) packet answered r
    → read_to w format size memory answered ≡ some memory'
    → write_back (old_of 26 d.data_) 26 answered ≡ some restored
    → exchange w (get_request dest sub_device pid) format size memory wanted d
      ≡ some (record {
        returned = if r.pdl == 0 then 1 else r.pdl;
        memory = if wanted then memory' else memory;
        rdm_ack = if wanted then some (acknowledged packet r) else none;
        driver = restored;
      })
unfolding exchange on_sent
exchange-get w dest sub_device pid size format memory memory' wanted d answered restored packet r c
      a f g =
    let (buf, k, wrote, sends, reads, status) = request-sent w dest sub_device pid d c in
    simp
      (
        read-old d.data_,
        wrote,
        sends,
        c.one_device,
        a.answered_by k reads status,
        on_response-ack w format size memory memory' packet answered r wanted (old_of 26 d.data_) 26
            restored a.some_slots a.is_rdm a.is_ack f g,
      )
      refl

-- A GET request without parameter data to one device or sub-device that the bus answers with an
-- acknowledgement, whatever error `dmx_receive` reports with it, which the `rdm_ack_t` has then: the
-- packet in the buffer when `dmx_receive` is called is the request, with this port's UID and its
-- transaction number, and it is being sent; `rdm_send_request` returns the length of the response's
-- parameter data, or 1 if there is none; the buffer's first 26 octets are those from before the
-- request, and the rest is what was received. If an `rdm_ack_t` is given, it describes the response,
-- and the parameter data is read to the memory at `pd`; if none is given, this memory is not
-- written, though the value returned is the same.
pub send_request-get :
    (w : World) (dest : Uid) (sub_device pid size : ℕ) (format memory memory' : Option (List ℕ))
    (wanted : Bool) (d answered : Driver) (packet : Packet) (r : Header)
    → CanAsk w dest sub_device pid d
    → Answers w (request_header w (get_request dest sub_device pid) d.tn) packet answered r
    → format_is_valid format ≡ some true
    → read_to w format size memory answered ≡ some memory'
    → (o : Outcome) × (send_request w (get_request dest sub_device pid) format size memory wanted d
        ≡ some o)
      × (o.returned ≡ (if r.pdl == 0 then 1 else r.pdl))
      × (o.memory ≡ (if wanted then memory' else memory))
      × (o.rdm_ack ≡ (if wanted then some (acknowledged packet r) else none))
      × (o.driver.data_ ≡ write_at 0 (take 26 d.data_) answered.data_)
unfolding send_request
send_request-get w dest sub_device pid size format memory memory' wanted d answered packet r c a v
      f =
    let q = get_request dest sub_device pid in
    let (d', restored, same) = write_back-old d.data_ answered c.buffer_fits a.idle_again in
    (
      record {
        returned = if r.pdl == 0 then 1 else r.pdl;
        memory = if wanted then memory' else memory;
        rdm_ack = if wanted then some (acknowledged packet r) else none;
        driver = d';
      },
      simp (null_valid, v, request_ok w dest sub_device pid d c, c.taken, c.is_sent)
          (exchange-get w dest sub_device pid size format memory memory' wanted d answered d' packet
            r c a f restored),
      refl,
      refl,
      refl,
      same,
    )
