-- ===== src/Responder/Branch/Found.antt =====
-- A request for discovery responses that a responder receives, from its buffer to the bus.
use esp_dmx.Prelude.{
  ℕ, ◌≡◌, refl, ap, ◌∙◌, Bool, true, false, not, ◌&&◌, none, some, List, arith, ◌>>=◌,
  if◌then◌else◌, length, get_elem?,
}
use esp_dmx.Uid.{Uid, IsUid, uid_is_target, uid_is_broadcast}
use esp_dmx.Format.{format_is_valid}
use esp_dmx.Packet.{Header, IsHeader, cc_is_valid, cc_is_request, response_type_is_valid}
use esp_dmx.Packet.Read.{read_header}
use esp_dmx.Packet.Write.{header_is_ok}
use esp_dmx.Packet.Frame.{read_header-packet}
use esp_dmx.Packet.Discovery.{response_from, read_header-write_discovery}
use esp_dmx.Response.{write_ack, response_header}
use esp_dmx.Responder.{Responder, Program, ack, with_buffer, is_muted, answer_branch, rhd_discovery}
use esp_dmx.Responder.Dispatch.{
  World, Outcome, send_response, on_packet, answer, respond, handle_request, support, call_handler,
  validate, allowed, conclude, begun, count_request, valid_packet, ignored, after_response,
  call_found, callback_of, send_packet,
}
use esp_dmx.Responder.Branch.Request.{
  Stamp, IsStamp, Asked, branch_request, bounds, in_range, answer_branch-asked,
}
use esp_dmx.Buffer.{sending}
use esp_dmx.Send.{Driver, send_num}
use esp_dmx.Send.Sizes.{IsReady}
use esp_dmx.Send.AtOnce.{sent_at_once}
use esp_dmx.Parameter.{Param, get_entry}
use esp_dmx.Parameter.Callback.{definition_get}

request-IsHeader :
    (src : Uid) (stamp : Stamp) → IsUid src → IsStamp stamp → IsHeader (branch_request src stamp)
request-IsHeader src stamp v h = record {
  message_len_fits = omega arith;
  dest_fits = record { man_fits = omega arith; dev_fits = omega arith };
  src_fits = v;
  tn_fits = h.tn_fits;
  port_id_fits = h.port_id_fits;
  message_count_fits = h.message_count_fits;
  sub_device_fits = omega arith;
  cc_fits = omega arith;
  pid_fits = omega arith;
  pdl_fits = omega arith;
}

module _ (w : World) (p : Program) (src : Uid) (stamp : Stamp) (lo hi : Uid) (rest : List ℕ)
    (r : Responder) (a : Asked p src stamp lo hi rest r) where
  h : Header
  h = branch_request src stamp

  received : valid_packet (read_header r.driver.data_) ≡ some h
  unfolding cc_is_valid h
  received =
      ap (λ d. valid_packet (read_header d)) a.buffer_is
      ∙ ap valid_packet (
          read_header-packet (branch_request src stamp) (bounds lo hi) rest
            (request-IsHeader src stamp a.src_fits a.stamp_fits) refl)

  defined : definition_get r.parameters 0 1 ≡ some (some a.address)
  unfolding definition_get
  defined = rw (a.entry_found, a.entry_at, a.defined) refl

  to_handler :
      (r' : Responder)
      → respond w p (branch_request src stamp) (some a.address) r' ≡ (
          answer_branch p a.definition (branch_request src stamp) r' >>= λ z.
          validate p (branch_request src stamp) z)
  unfolding respond handle_request support call_handler rhd_discovery
  to_handler r' = rw (a.definition_at, a.is_disc, a.handled) refl

  -- The whole call, but for what the handler returns.
  send_response-asked :
      w.mutex_taken ≡ true
      → send_response w p r ≡ (
          answer_branch p a.definition
            (branch_request src stamp)
            (begun (branch_request src stamp) r)
          >>= (λ z. validate p (branch_request src stamp) z)
          >>= λ (size, r'').
              conclude w (branch_request src stamp) (allowed (branch_request src stamp) size) r'')
  unfolding send_response on_packet answer count_request h uid_is_target
  send_response-asked taken =
      ap
        (λ t.
          if t
          then on_packet w p (valid_packet (read_header r.driver.data_)) r
          else some (ignored r))
        taken
      ∙ ap (λ o. on_packet w p o r) received
      ∙ ap
          (λ o. o >>= λ def.
            respond w p (branch_request src stamp) def (begun (branch_request src stamp) r)
            >>= λ (size, r'').
                conclude w (branch_request src stamp) (allowed (branch_request src stamp) size) r'')
          defined
      ∙ ap
          (λ o. o >>= λ (size, r'').
            conclude w (branch_request src stamp) (allowed (branch_request src stamp) size) r'')
          (to_handler (begun (branch_request src stamp) r))

unfoldable begun_asked :
    {p : Program} {src : Uid} {stamp : Stamp} {lo hi : Uid} {rest : List ℕ} {r : Responder}
    (h : Header)
    → Asked p src stamp lo hi rest r
    → Asked p src stamp lo hi rest (begun h r)
unfolding count_request
begun_asked h a = record {
  fuel = a.fuel;
  fuel_is = a.fuel_is;
  stack_fits = a.stack_fits;
  buffer_is = a.buffer_is;
  buffer_fits = a.buffer_fits;
  uid_fits = a.uid_fits;
  src_fits = a.src_fits;
  lo_fits = a.lo_fits;
  hi_fits = a.hi_fits;
  stamp_fits = a.stamp_fits;
  params = a.params;
  index = a.index;
  entry = a.entry;
  address = a.address;
  definition = a.definition;
  entry_found = a.entry_found;
  entry_at = a.entry_at;
  defined = a.defined;
  definition_at = a.definition_at;
  is_disc = a.is_disc;
  handled = a.handled;
  format_is = a.format_is;
}

-- A muted responder, or one whose UID is not between the two bounds, is silent: `rdm_send_response`
-- returns false, nothing is written to the buffer or sent, and the parameters are as they were.
pub send_response-silent :
    (w : World) (p : Program) (src : Uid) (stamp : Stamp) (lo hi : Uid) (rest : List ℕ)
    (r : Responder) (muted : Bool)
    → Asked p src stamp lo hi rest r
    → w.mutex_taken ≡ true
    → is_muted r.parameters ≡ some muted
    → (not muted && in_range lo hi r.uid) ≡ false
    → (o : Outcome) × (send_response w p r ≡ some o)
      × (o.responded ≡ false)
      × (o.given ≡ none)
      × (o.responder.driver ≡ r.driver)
      × (o.responder.parameters ≡ r.parameters)
unfolding validate allowed conclude after_response count_request uid_is_broadcast begun_asked
send_response-silent w p src stamp lo hi rest r muted a taken m out =
    let h = branch_request src stamp in
    let r' : Responder = begun h r in
    let called : get_entry r.parameters 0 1 >>= call_found h r' ≡ some (callback_of h r' a.entry) =
      rw (a.entry_found, a.entry_at) refl in
    (
      record {
        responded = false;
        given = none;
        sent = none;
        awaits_break = false;
        call = callback_of h r' a.entry;
        responder = r';
      },
      send_response-asked w p src stamp lo hi rest r a taken
          ∙ ap
              (λ o.
                o >>= (λ z. validate p h z) >>= λ (size, r''). conclude w h (allowed h size) r'')
              (answer_branch-asked p src stamp lo hi rest r' muted (begun_asked h a) m
                ∙ ap (λ b. if b then ack p h none none 0 r' else some (0, r')) out)
          ∙ ap
              (λ o. o >>= λ c. some (record {
                responded = false;
                given = none;
                sent = none;
                awaits_break = false;
                call = c;
                responder = r';
              }))
              called,
      refl,
      refl,
      refl,
      refl,
    )

response_ok :
    (this : Uid) (queued : ℕ) (src : Uid) (stamp : Stamp)
    → header_is_ok (response_header this queued (branch_request src stamp) 0 0) ≡ true
unfolding header_is_ok cc_is_valid cc_is_request response_type_is_valid
response_ok this queued src stamp = refl

-- The response that is written.
acked :
    (p : Program) (r : Responder) (src : Uid) (stamp : Stamp)
    → IsUid r.uid
    → length r.driver.data_ ≡ 513
    → (buf' : List ℕ) × (ack p (branch_request src stamp) none none 0 r
        ≡ some (24, record r { driver = record r.driver { data_ = buf' } }))
      × (read_header buf' ≡ some (response_from r.uid))
unfolding ack write_ack format_is_valid cc_is_request
acked p r src stamp v len =
    let (buf', e, _, f) =
      read_header-write_discovery p.fuel
        (response_header r.uid r.queued (branch_request src stamp) 0 0) none none r.driver.data_
        (fine r) null_valid refl refl refl v len in
    (buf', ap (λ o. o >>= λ w. some (with_buffer r w)) e, f)
  where
    null_valid : format_is_valid none ≡ some true
    null_valid = refl

    fine :
        (r : Responder)
        → header_is_ok (response_header r.uid r.queued (branch_request src stamp) 0 0) ≡ true
    fine r = response_ok r.uid r.queued src stamp

-- Sending it, and the callback behind it.
concluded :
    (w : World) (h : Header) (d : Driver) (r : Responder) (params : List Param) (i : ℕ) (e : Param)
    → send_num w.sending w.spacing r.driver 24 ≡ some (24, d)
    → get_entry r.parameters h.sub_device h.pid ≡ some (some (params, i))
    → get_elem? params i ≡ some e
    → let r' = record r { driver = record (w.behind_wait d) { rts = 1 } } in
      conclude w h 24 r
      ≡ some (record {
        responded = true;
        given = some 24;
        sent = some d;
        awaits_break = true;
        call = callback_of h r' e;
        responder = r';
      })
unfolding conclude send_packet after_response
concluded w h d r params i e f g k = rw (f, g, k) refl

-- A responder that is not muted and whose UID is between the two bounds answers the request, if its
-- port may send: `rdm_send_response` returns true, and the packet that `dmx_send_num` sends has 24
-- octets, from which `rdm_read_header` gets the responder's UID; then the driver is as the
-- interrupts leave it behind the packet, and waits for a break.
pub send_response-found :
    (w : World) (p : Program) (src : Uid) (stamp : Stamp) (lo hi : Uid) (rest : List ℕ)
    (r : Responder)
    → Asked p src stamp lo hi rest r
    → w.mutex_taken ≡ true
    → is_muted r.parameters ≡ some false
    → in_range lo hi r.uid ≡ true
    → IsReady w.sending r.driver false
    → (o : Outcome) × (d : Driver) × (send_response w p r ≡ some o)
      × (o.responded ≡ true)
      × (o.sent ≡ some d)
      × (read_header d.data_ ≡ some (response_from r.uid))
      × (d.status ≡ sending)
      × (d.size ≡ 24)
      × (o.responder.driver ≡ record (w.behind_wait d) { rts = 1 })
      × (o.awaits_break ≡ true)
unfolding validate allowed count_request uid_is_broadcast begun_asked cc_is_request cc_is_valid
send_response-found w p src stamp lo hi rest r a taken m within ready =
    let h = branch_request src stamp in
    let r' : Responder = begun h r in
    let (buf', written, reads) = acked p r' src stamp a.uid_fits a.buffer_fits in
    let r'' : Responder = record r' { driver = record r'.driver { data_ = buf' } } in
    let (d, sends, status, size, kept) =
      sent_at_once w.sending w.spacing r''.driver (response_from r.uid) 24 reads refl refl record {
        taken = ready.taken;
        quiet = ready.quiet;
        wakes = ready.wakes;
        in_time = ready.in_time;
      } in
    (
      record {
        responded = true;
        given = some 24;
        sent = some d;
        awaits_break = true;
        call = callback_of h (record r'' { driver = record (w.behind_wait d) { rts = 1 } }) a.entry;
        responder = record r'' { driver = record (w.behind_wait d) { rts = 1 } };
      },
      d,
      send_response-asked w p src stamp lo hi rest r a taken
          ∙ ap
              (λ o.
                o >>= (λ z. validate p h z) >>= λ (size, r''). conclude w h (allowed h size) r'')
              (answer_branch-asked p src stamp lo hi rest r' false (begun_asked h a) m
                ∙ ap (λ b. if b then ack p h none none 0 r' else some (0, r')) within
                ∙ written)
          ∙ concluded w h d r'' a.params a.index a.entry sends a.entry_found a.entry_at,
      refl,
      refl,
      ap read_header kept ∙ reads,
      status,
      size,
      refl,
      refl,
    )
