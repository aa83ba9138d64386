-- ===== src/Request.antt =====
-- Requests of a controller: rdm_send_request and rdm_get_transaction_num of
-- src/rdm/controller/utils.c.
pub mod Sent
pub mod Answered
pub mod Senders
pub mod Examples
use esp_dmx.Prelude.{
  ℕ, ◌+◌, ◌*◌, ◌%◌, ◌^◌, Bool, true, false, not, ◌&&◌, ◌||◌, Option, none, some, List, [], ◌∷◌, ltb,
  ◌==◌, if◌then◌else◌, ◌>>=◌, assert, take, replicate, get_or, write_at,
}
use esp_dmx.Uid.{Uid, uid_null, uid_is_broadcast}
use esp_dmx.Format.{Encoded, finished, format_is_valid}
use esp_dmx.Packet.{
  Header, sub_device_max, sub_device_all, set_command, pid_disc_unique_branch, cc_is_valid,
  cc_is_request, response_type_is_valid, be16,
}
use esp_dmx.Packet.Read.{read_header, read_pd, filled}
use esp_dmx.Packet.Write as Codec
use esp_dmx.Packet.Write.{is_some}
use esp_dmx.Buffer as Slots
use esp_dmx.Send.{Driver, send}
use esp_dmx.Send as Sending
use esp_dmx.Uart.{Err, ok}
use esp_dmx.Receive.{Packet}

-- `rdm_request_t`; the UID is the one that the pointer points to.
pub record Request : Type 0 where
  pub dest_uid : Uid
  pub sub_device : ℕ
  pub cc : ℕ
  pub pid : ℕ
  pub format : Option (List ℕ)
  pub pd : Option (List ℕ)
  pub pdl : ℕ

-- The union of `rdm_ack_t`.
pub data AckValue : Type 0 where
  pdl_is timer_is nack_reason_is : ℕ → AckValue

-- `rdm_ack_t`
pub record RdmAck : Type 0 where
  pub err : Err
  pub size : ℕ
  pub src_uid : Uid
  pub pid : ℕ
  pub kind : ℕ
  pub message_count : ℕ
  pub value : AckValue

-- What a call meets: the fuel for the encoder, whether the mutex is taken, whether the driver is
-- done sending, what the interrupts make of the driver until a request to all devices is sent, the
-- answers while a request is sent, the discovery's transaction spacing, what
-- `dmx_receive` describes and makes of the driver, the ticks of a number of milliseconds, the
-- number and the UID of the port, and the octets that variables hold before they are set.
pub record World : Type 0 where
  pub fuel : ℕ
  pub mutex_taken : Bool
  pub is_sent : Bool
  pub sent_out : Driver → Driver
  pub sending : Sending.World
  pub spacing : ℕ
  pub receive : Driver → Option (Packet × Driver)
  pub ms_to_ticks : ℕ → ℕ
  pub dmx_num : ℕ
  pub uid : Uid
  pub stack : List ℕ

-- The value returned, the memory at `pd`, the acknowledgement, and the driver.
pub record Outcome : Type 0 where
  pub returned : ℕ
  pub memory : Option (List ℕ)
  pub rdm_ack : Option RdmAck
  pub driver : Driver

abbrev pub type_none : ℕ
type_none = 0xff

abbrev pub type_invalid : ℕ
type_invalid = 0xfe

abbrev pub type_ack : ℕ
type_ack = 0x00

abbrev pub type_ack_timer : ℕ
type_ack_timer = 0x01

abbrev pub type_nack_reason : ℕ
type_nack_reason = 0x02

-- `rdm_get_transaction_num`
abbrev pub get_transaction_num : Driver → ℕ
get_transaction_num d = d.tn

-- The assertions that the call begins with, but for the two on formats.
unfoldable pub request_is_ok : Request → Bool
request_is_ok q =
    (ltb q.sub_device sub_device_max || q.sub_device == sub_device_all)
    && ltb 0 q.pid
    && (cc_is_valid q.cc && cc_is_request q.cc)
    && (not (q.sub_device == sub_device_all) || q.cc == set_command)
    && (is_some q.format || not (is_some q.pd))
    && (is_some q.pd || q.pdl == 0)
    && ltb q.pdl 232

abbrev pub request_header : World → Request → ℕ → Header
request_header w q tn = record {
  message_len = (24 + q.pdl) % 2 ^ 8;
  dest_uid = q.dest_uid;
  src_uid = w.uid;
  tn = tn;
  port_id = (w.dmx_num + 1) % 2 ^ 8;
  message_count = 0;
  sub_device = q.sub_device;
  cc = q.cc;
  pid = q.pid;
  pdl = q.pdl % 2 ^ 8;
}

-- An acknowledgement of no response.
abbrev pub empty_ack : Err → ℕ → ℕ → RdmAck
empty_ack e size kind = record {
  err = e;
  size = size;
  src_uid = uid_null;
  pid = 0;
  kind = kind;
  message_count = 0;
  value = pdl_is 0;
}

-- The octets before the request are written back to the buffer.
unfoldable pub write_back : List ℕ → ℕ → Driver → Option Driver
write_back old n d =
    Slots.write (record { data_ = d.data_; status = d.status; rts = d.rts }) old n >>= λ (k, port).
    some (record d { data_ = port.data_; rts = port.rts })

-- An early return.
unfoldable pub give_up : List ℕ → ℕ → Bool → RdmAck → Option (List ℕ) → Driver → Option Outcome
give_up old n wanted a memory d = write_back old n d >>= λ d'. some (record {
  returned = 0;
  memory = memory;
  rdm_ack = if wanted then some a else none;
  driver = d';
})

-- `rdm_read_pd` to the memory at `pd`, which may be null.
unfoldable pub read_to :
    World → Option (List ℕ) → ℕ → Option (List ℕ) → Driver → Option (Option (List ℕ))
read_to w format size none d = format_is_valid format >>= λ valid. some none
read_to w format size (some memory) d =
    read_pd w.fuel d.data_ format size >>= λ (n, e). filled memory e >>= λ m. some (some m)

-- `rdm_read_pd` of a uint16_t.
unfoldable pub read_word : World → Driver → Option ℕ
read_word w d = read_pd w.fuel d.data_ (some (b'w' ∷ [])) 2 >>= λ (n, e).
    filled (take 2 w.stack) e >>= λ m. some (be16 (get_or m 1 0) (get_or m 0 0))

-- The type and the value of the acknowledgement, and the memory at `pd`.
unfoldable pub ack_value :
    World
    → Option (List ℕ)
    → ℕ
    → Option (List ℕ)
    → Driver
    → Header
    → Option (ℕ × AckValue × Option (List ℕ))
ack_value w format size memory d h =
    if not (response_type_is_valid h.port_id)
    then some (type_invalid, pdl_is h.pdl, memory)
    else if h.port_id == type_ack_timer
    then (read_word w d >>= λ timer.
        some (h.port_id, timer_is (w.ms_to_ticks (timer * 10)), memory))
    else if h.port_id == type_nack_reason
    then (read_word w d >>= λ reason. some (h.port_id, nack_reason_is reason, memory))
    else (read_to w format size memory d >>= λ m. some (h.port_id, pdl_is h.pdl, m))

-- The results, if they are wanted. Before, the source reads parameter data to a null pointer, which
-- does nothing.
unfoldable pub results :
    World
    → Option (List ℕ)
    → ℕ
    → Option (List ℕ)
    → Bool
    → Packet
    → Driver
    → Header
    → Option (Option RdmAck × Option (List ℕ))
results w format size memory false packet d h = some (none, memory)
results w format size memory true packet d h =
    ack_value w format size memory d h >>= λ (kind, value, m). some (
      some (record {
        err = packet.err;
        size = packet.size;
        src_uid = h.src_uid;
        pid = h.pid;
        kind = kind;
        message_count = h.message_count;
        value = value;
      }),
      m,
    )

abbrev pub value_of : Header → ℕ
value_of h = if h.port_id == type_ack then (if h.pdl == 0 then 1 else h.pdl) else 0

-- What follows the call of `dmx_receive`.
unfoldable pub on_response :
    World
    → Option (List ℕ)
    → ℕ
    → Option (List ℕ)
    → Bool
    → List ℕ
    → ℕ
    → Packet
    → Driver
    → Option Outcome
on_response w format size memory wanted old n packet d =
    if packet.size == 0
    then give_up old n wanted (empty_ack packet.err packet.size type_none) memory d
    else (elim (read_header d.data_) [
      | none ↦ give_up old n wanted (empty_ack packet.err packet.size type_invalid) memory d
      | some h ↦ results w format size memory wanted packet d h >>= λ (a, m).
          write_back old n d >>= λ d'.
          some (record { returned = value_of h; memory = m; rdm_ack = a; driver = d' })
    ])

-- What follows the call of `dmx_send`.
unfoldable pub on_sent :
    World
    → Request
    → Option (List ℕ)
    → ℕ
    → Option (List ℕ)
    → Bool
    → List ℕ
    → ℕ
    → ℕ × Driver
    → Option Outcome
on_sent w q format size memory wanted old n (k, d) =
    if k == 0
    then give_up old n wanted (empty_ack ok 0 type_none) memory d
    else if uid_is_broadcast q.dest_uid && not (q.pid == pid_disc_unique_branch)
    then give_up old n wanted (empty_ack ok 0 type_none) memory (w.sent_out d)
    else (w.receive d >>= λ (packet, d'). on_response w format size memory wanted old n packet d')

-- The request itself.
unfoldable pub exchange :
    World → Request → Option (List ℕ) → ℕ → Option (List ℕ) → Bool → Driver → Option Outcome
exchange w q format size memory wanted d =
    let h = request_header w q (get_transaction_num d) in
    let n = h.message_len + 2 in
    Slots.read d.data_ (replicate 257 0) n >>= λ (_, old).
    Codec.write w.fuel h q.format q.pd d.data_ >>= λ (_, buf).
    send w.sending w.spacing (record d { data_ = buf }) >>= λ s.
    on_sent w q format size memory wanted old n s

-- `rdm_send_request`; `none` is a failed assertion or a fault.
unfoldable pub send_request :
    World → Request → Option (List ℕ) → ℕ → Option (List ℕ) → Bool → Driver → Option Outcome
send_request w q format size memory wanted d = format_is_valid q.format >>= λ valid.
    format_is_valid format >>= λ valid'. assert (request_is_ok q && valid && valid') (
      if not w.mutex_taken || not w.is_sent
      then some (record { returned = 0; memory = memory; rdm_ack = none; driver = d })
      else exchange w q format size memory wanted d)
