-- ===== src/Responder/Refusal.antt =====
-- Packets for a parameter that the responder does not have.
use esp_dmx.Prelude.{
  ℕ, ◌+◌, ◌<◌, ◌≡◌, ◌≢◌, refl, sym, ap, ◌∙◌, Bool, true, false, not, ◌&&◌, none, some, arith, ltb,
  ◌==◌, ◌>>=◌, if◌then◌else◌, length,
}
use esp_dmx.Uid.{uid_is_target, uid_is_broadcast}
use esp_dmx.Packet.{
  Header, cc_is_valid, cc_is_request, disc_command, disc_command_response, pid_disc_unique_branch,
}
use esp_dmx.Packet.Read.{read_header}
use esp_dmx.Buffer.{sending}
use esp_dmx.Send.{Driver, send_num}
use esp_dmx.Send.Sizes.{IsReady, sent}
use esp_dmx.Parameter.{get_entry}
use esp_dmx.Parameter.Callback.{definition_get, definition_found}
use esp_dmx.Response.{write_nack_reason, response_nack_reason}
use esp_dmx.Response.Reply.{IsRequest, reply_class, read_header-write_nack_reason}
use esp_dmx.Responder.{Responder, Program, nack, with_buffer, nr_unknown_pid}
use esp_dmx.Responder.Dispatch.{
  World, Outcome, send_response, on_packet, answer, respond, allowed, conclude, begun,
  count_request, valid_packet, ignored, send_packet, after_response,
}

-- A packet to this device about a parameter that is not in its table.
pub record IsMissing (w : World) (h : Header) (r : Responder) : Type 0 where
  pub taken : w.mutex_taken ≡ true
  pub is_rdm : read_header r.driver.data_ ≡ some h
  pub cc_valid : cc_is_valid h.cc ≡ true
  pub to_me : uid_is_target r.uid h.dest_uid ≡ true
  pub missing : get_entry r.parameters h.sub_device h.pid ≡ some none

send_response-nack :
    (w : World) (p : Program) (h : Header) (r : Responder)
    → IsMissing w h r
    → send_response w p r
      ≡ (nack p h nr_unknown_pid (begun h r) >>= λ (size, r'). conclude w h (allowed h size) r')
unfolding send_response on_packet answer count_request respond definition_get
send_response-nack w p h r u =
    ap
      (λ t.
        if t then on_packet w p (valid_packet (read_header r.driver.data_)) r else some (ignored r))
      u.taken
    ∙ ap (λ o. on_packet w p (valid_packet o) r) u.is_rdm
    ∙ ap (λ t. on_packet w p (if t then some h else none) r) u.cc_valid
    ∙ ap (λ t. if t then answer w p h r else some (ignored r)) u.to_me
    ∙ ap
        (λ o. o >>= definition_found >>= λ def.
          respond w p h def (begun h r) >>= λ (size, r'). conclude w h (allowed h size) r')
        u.missing

-- `rdm_send_response` does not ask whether the packet is a request: on a response to this device
-- about a parameter that the device does not have, it fails an assertion.
pub send_response-response :
    (w : World) (p : Program) (h : Header) (r : Responder)
    → IsMissing w h r
    → cc_is_request h.cc ≡ false
    → send_response w p r ≡ none
unfolding nack write_nack_reason
send_response-response w p h r u odd =
    send_response-nack w p h r u
    ∙ ap (λ o. o >>= λ (size, r'). conclude w h (allowed h size) r') fails
  where
    fails : nack p h nr_unknown_pid (begun h r) ≡ none
    fails = rw odd refl

concluded :
    (w : World) (h : Header) (d : Driver) (size n : ℕ) (r : Responder)
    → 0 < size
    → (n == 0) ≡ false
    → send_num w.sending w.spacing r.driver size ≡ some (n, d)
    → get_entry r.parameters h.sub_device h.pid ≡ some none
    → conclude w h size r
      ≡ some (record {
        responded = true;
        given = some size;
        sent = some d;
        awaits_break = true;
        call = none;
        responder = record r { driver = record (w.behind_wait d) { rts = 1 } };
      })
unfolding conclude send_packet after_response
concluded w h d size n r a b e f = let t : ltb 0 size ≡ true = ground arith in rw (t, e, b, f) refl

and_false : (b : Bool) → (b && false) ≡ false
and_false true = refl
and_false false = refl

-- The header of the refusal.
abbrev pub refusal : Header → Responder → Header
refusal h r = record {
  message_len = 26;
  dest_uid = h.src_uid;
  src_uid = r.uid;
  tn = h.tn;
  port_id = response_nack_reason;
  message_count = r.queued;
  sub_device = h.sub_device;
  cc = h.cc + 1;
  pid = h.pid;
  pdl = 2;
}

refusal-sent :
    (w : World) (h : Header) (r : Responder) (d : Driver)
    → IsRequest h r.uid r.queued
    → read_header d.data_ ≡ some (refusal h r)
    → IsReady w.sending d false
    → (d' : Driver) × (send_num w.sending w.spacing d 28 ≡ some (28, d'))
      × (d'.status ≡ sending)
      × (d'.size ≡ 28)
      × (d'.data_ ≡ d.data_)
refusal-sent w h r d q reads ready =
    let (valid, odd, _, next) = reply_class q in
    let other : (h.cc + 1 == disc_command_response && h.pid == pid_disc_unique_branch) ≡ false =
      ap (λ t. h.cc + 1 == disc_command_response && t) q.not_unique_branch ∙ and_false _ in
    let as_responder : cc_is_request (h.cc + 1) ≡ false = ap cc_is_request (sym next) ∙ odd in
    let (d', sends, status, _, _, size, kept, _) =
      sent w.sending w.spacing d (refusal h r) 28 reads (ap cc_is_valid (sym next) ∙ valid) other
        record {
          taken = ready.taken;
          quiet = ready.quiet;
          wakes = ready.wakes;
          in_time = λ e. ready.in_time refl;
        } in
    (d', sends, status, size, kept)

-- A GET or SET request to this device alone about a parameter that the device does not have is
-- refused, if the port may send: what `dmx_send_num` sends is the packet that
-- `rdm_write_nack_reason` writes with RDM_NR_UNKNOWN_PID, it has 28 octets, and `rdm_read_header`
-- gets from it the response to the sender, with the request's transaction number, sub-device and
-- PID. Then the driver is as the interrupts leave it behind the packet, and waits for a break.
pub send_response-unknown :
    (w : World) (p : Program) (h : Header) (r : Responder)
    → IsMissing w h r
    → IsRequest h r.uid r.queued
    → h.cc ≢ disc_command
    → uid_is_broadcast h.dest_uid ≡ false
    → p.fuel ≡ 2
    → length r.driver.data_ ≡ 513
    → IsReady w.sending r.driver false
    → (o : Outcome) × (d : Driver) × (send_response w p r ≡ some o)
      × (o.responded ≡ true)
      × (o.sent ≡ some d)
      × (d.status ≡ sending)
      × (d.size ≡ 28)
      × (write_nack_reason 2 r.uid r.queued h nr_unknown_pid r.driver.data_ ≡ some (28, d.data_))
      × (read_header d.data_ ≡ some (refusal h r))
      × (o.responder.driver ≡ record (w.behind_wait d) { rts = 1 })
      × (o.awaits_break ≡ true)
unfolding nack count_request allowed
send_response-unknown w p h r u q no_disc one_device fuel len ready =
    let r' : Responder = begun h r in
    let (buf', written, _, reads) =
      read_header-write_nack_reason h r.uid r.queued nr_unknown_pid r.driver.data_ q len in
    let r'' : Responder = record r' { driver = record r'.driver { data_ = buf' } } in
    let (d, sends, status, size, kept) = refusal-sent w h r r''.driver q reads record {
      taken = ready.taken;
      quiet = ready.quiet;
      wakes = ready.wakes;
      in_time = ready.in_time;
    } in
    let nacked : nack p h nr_unknown_pid r' ≡ some (28, r'') =
      ap
        (λ f. write_nack_reason f r.uid r.queued h nr_unknown_pid r.driver.data_ >>= λ z.
          some (with_buffer r' z))
        fuel
      ∙ ap (λ o. o >>= λ z. some (with_buffer r' z)) written in
    (
      record {
        responded = true;
        given = some 28;
        sent = some d;
        awaits_break = true;
        call = none;
        responder = record r'' { driver = record (w.behind_wait d) { rts = 1 } };
      },
      d,
      send_response-nack w p h r u
          ∙ ap (λ o. o >>= λ (size, z). conclude w h (allowed h size) z) nacked
          ∙ ap
              (λ t. conclude w h (if t && not (h.pid == pid_disc_unique_branch) then 0 else 28) r'')
              one_device
          ∙ concluded w h d 28 28 r'' (omega arith) refl sends u.missing,
      refl,
      refl,
      status,
      size,
      written ∙ ap (λ b. some (28, b)) (sym kept),
      ap read_header kept ∙ reads,
      refl,
      refl,
    )
