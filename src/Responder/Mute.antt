-- ===== src/Responder/Mute.antt =====
-- The answers to DISC_MUTE and DISC_UN_MUTE.
use esp_dmx.Prelude.{
  suc, ◌%◌, ◌≤◌, Bool-cases, inl, inr, ℕ, ◌+◌, ◌/◌, ◌*◌, ◌≡◌, refl, ap, ◌∙◌, Bool, true, false, not,
  Option, some, List, [], ◌∷◌, arith, ltb, ◌==◌, ◌>>=◌, if◌then◌else◌, length, get_or,
}
use esp_dmx.Uid.{Uid, IsUid, uid_is_null}
use esp_dmx.Format.{all_zero, finished, format_encode, format_is_valid}
use esp_dmx.Packet.{Header, uid_bytes}
use esp_dmx.Packet.Read.{read_header}
use esp_dmx.Packet.Standard.{read_header-write}
use esp_dmx.Parameter.{Param, Device, Store, sub_device_get_count}
use esp_dmx.Parameter.Access.{parameter_set}
use esp_dmx.Parameter.RoundTrip.{HasData, copy-set}
use esp_dmx.Parameter.Shared.{copy-set-shared}
use esp_dmx.Response.{write_ack, response_header}
use esp_dmx.Response.Reply.{IsRequest, reply_class, reply_ok, reply-IsHeader, not_discovery}
use esp_dmx.Responder.{
  Definition, Responder, Program, ack, with_buffer, is_muted, mute_bytes, answer_mute,
  rhd_discovery, pid_disc_mute, binding_uid,
}

-- "wv"
abbrev pub mute_format : List ℕ
mute_format = b'w' ∷ b'v' ∷ []

-- The device has both parameters, with one octet of data in common.
pub record HasMute (s : Store) : Type 0 where
  pub i : ℕ
  pub j : ℕ
  pub b : ℕ
  pub device : Device
  pub mute : Param
  pub un_mute : Param
  pub block : List ℕ
  pub has_mute : HasData s 0 2 i b device mute block
  pub has_un_mute : HasData s 0 3 j b device un_mute block
  pub mute_size : mute.size ≡ 1
  pub un_mute_size : un_mute.size ≡ 1

-- DISC_MUTE, or DISC_UN_MUTE.
abbrev pub mute_pid : Bool → ℕ
mute_pid true = 2
mute_pid false = 3

abbrev mute_value : Bool → ℕ
mute_value true = 1
mute_value false = 0

-- Setting the parameter of either PID sets what the handler of DISC_UNIQUE_BRANCH reads.
set-is_muted :
    (s : Store)
    → HasMute s
    → (on : Bool)
    → (k : ℕ) × (s' : Store) × (parameter_set s 0 (mute_pid on) (some (mute_value on ∷ [])) 1
        ≡ some (k, s'))
      × (is_muted s' ≡ some on)
unfolding is_muted
set-is_muted s m true =
    let (s', e, f, _) =
      copy-set m.has_mute (1 ∷ []) 1 1 (omega arith) (omega arith) (omega (arith, m.mute_size)) in
    (_, s', e, ap (λ o. o >>= λ (k, xs). some (not (get_or xs 0 1 == 0))) f)
set-is_muted s m false =
    let (s', e, f) =
      copy-set-shared m.has_un_mute m.has_mute (λ e. absurd (omega (arith, e))) (0 ∷ []) 1 1
        (omega arith) (omega arith) (omega (arith, m.un_mute_size)) (omega (arith, m.mute_size)) in
    (_, s', e, ap (λ o. o >>= λ (k, xs). some (not (get_or xs 0 1 == 0))) f)

-- The octets of a binding UID in the response: none for a null UID.
abbrev pub reported : Uid → List ℕ
reported u =
    if uid_is_null u
    then []
    else u.man_id / 256 % 256
      ∷ u.man_id % 256
      ∷ u.dev_id / 16777216 % 256
      ∷ u.dev_id / 65536 % 256
      ∷ u.dev_id / 256 % 256
      ∷ u.dev_id % 256
      ∷ []

length-reported : (u : Uid) → length (reported u) ≤ 6
length-reported u = ground arith

all_zero-uid : (u : Uid) → IsUid u → all_zero 6 (uid_bytes u) ≡ uid_is_null u
unfolding uid_is_null
all_zero-uid u v = let m = v.man_fits in let d = v.dev_fits in ground arith

encoded :
    (x y : ℕ) (u : Uid)
    → IsUid u
    → format_encode 2 (some mute_format) (x ∷ y ∷ uid_bytes u) 8 false
      ≡ finished (y ∷ x ∷ reported u) (suc (suc (length (reported u))))
unfolding format_encode format_is_valid esp_dmx.Format.check esp_dmx.Format.encode_loop
    esp_dmx.Format.encode_tokens
encoded x y u v = elim (Bool-cases (uid_is_null u)) [
  | inl e ↦ rw (all_zero-uid u v, e) refl
  | inr e ↦ rw (all_zero-uid u v, e) refl
]

wv_valid : format_is_valid (some mute_format) ≡ some true
unfolding format_is_valid esp_dmx.Format.check
wv_valid = refl

-- The header of the acknowledgement with `n` octets of data.
abbrev pub mute_reply : Header → Responder → ℕ → Header
mute_reply h r n = record {
  message_len = 24 + n;
  dest_uid = h.src_uid;
  src_uid = r.uid;
  tn = h.tn;
  port_id = 0;
  message_count = r.queued;
  sub_device = h.sub_device;
  cc = h.cc + 1;
  pid = h.pid;
  pdl = n;
}

-- The acknowledgement, with a binding UID.
ack-mute :
    (p : Program) (h : Header) (r : Responder) (x y : ℕ) (u : Uid)
    → IsUid u
    → IsRequest h r.uid r.queued
    → p.fuel ≡ 2
    → length r.driver.data_ ≡ 513
    → let n = suc (suc (length (reported u))) in
      (buf' : List ℕ) × (ack p h (some mute_format) (some (x ∷ y ∷ uid_bytes u)) 8 r
        ≡ some (26 + n, record r { driver = record r.driver { data_ = buf' } }))
      × (read_header buf' ≡ some (mute_reply h r n))
unfolding ack write_ack
ack-mute p h r x y u v q fuel len =
    let reply = response_header r.uid r.queued h 0 8 in
    let pd : List ℕ = x ∷ y ∷ uid_bytes u in
    let (buf', wrote, _, reads) =
      read_header-write 2 reply (some mute_format) pd (y ∷ x ∷ reported u) r.driver.data_
        (reply_ok q 0 8 (omega arith) (omega arith), wv_valid, refl, not_discovery q)
        (reply-IsHeader q 0 8 (omega arith)) (omega arith) len (encoded x y u v)
        (omega (arith, length-reported u)) in
    let acked : write_ack 2 r.uid r.queued h (some mute_format) (some pd) 8 r.driver.data_
        ≡ some (26 + suc (suc (length (reported u))), buf') =
      rw (wv_valid, q.cc_request) wrote in
    (
      buf',
      ap
            (λ f.
              write_ack f r.uid r.queued h (some mute_format) (some pd) 8 r.driver.data_ >>= λ w.
              some (with_buffer r w))
            fuel
          ∙ ap (λ o. o >>= λ w. some (with_buffer r w)) acked,
      reads
          ∙ ap (λ c. some (record (mute_reply h r (suc (suc (length (reported u))))) { cc = c }))
              (reply_class q).3,
    )

value_lem : (on : Bool) → (if mute_pid on == pid_disc_mute then 1 else 0) ≡ mute_value on
value_lem true = refl
value_lem false = refl

-- What the handler writes to the parameter, and then to the buffer.
answer_mute_lem :
    (p : Program) (d : Definition) (h : Header) (r : Responder) (on : Bool) (k : ℕ) (s : Store)
    → h.pid ≡ mute_pid on
    → parameter_set r.parameters 0 (mute_pid on) (some (mute_value on ∷ [])) 1 ≡ some (k, s)
    → answer_mute p d h r
      ≡ ack p h d.get_.response_format
          (some (mute_bytes p (record r { parameters = s })))
          8
          (record r { parameters = s })
unfolding answer_mute
answer_mute_lem p d h r on k s pid_is e =
    ap (λ n. go n (if n == pid_disc_mute then 1 else 0)) pid_is
    ∙ ap (go (mute_pid on)) (value_lem on)
    ∙ ap
        (λ o. o >>= λ (k, s).
          ack p h d.get_.response_format (some (mute_bytes p (record r { parameters = s }))) 8
            (record r { parameters = s }))
        e
  where
    go : ℕ → ℕ → Option (ℕ × Responder)
    go n v = parameter_set r.parameters 0 n (some (v ∷ [])) 1 >>= λ (k, s).
        ack p h d.get_.response_format (some (mute_bytes p (record r { parameters = s }))) 8
          (record r { parameters = s })

-- The handler of DISC_MUTE and DISC_UN_MUTE, on a device whose two parameters share their data: the
-- device is then muted, or not, as the handler of DISC_UNIQUE_BRANCH reads it, and the buffer holds
-- an acknowledgement from which `rdm_read_header` gets the response to the sender, with the request's
-- transaction number and PID. It has 28 octets on a device with one port, and with several ports the
-- six of the first port's UID besides, unless this UID is null.
pub rhd_discovery-mute :
    (p : Program) (d : Definition) (h : Header) (r : Responder) (on : Bool)
    → IsRequest h r.uid r.queued
    → h.sub_device ≡ 0
    → h.pid ≡ mute_pid on
    → d.get_.response_format ≡ some mute_format
    → p.fuel ≡ 2
    → IsUid (binding_uid p.ports)
    → HasMute r.parameters
    → length r.driver.data_ ≡ 513
    → let n = suc (suc (length (reported (binding_uid p.ports)))) in
      (r' : Responder) × (rhd_discovery p d h r ≡ some (26 + n, r'))
      × (is_muted r'.parameters ≡ some on)
      × (read_header r'.driver.data_ ≡ some (mute_reply h r n))
unfolding rhd_discovery mute_bytes
rhd_discovery-mute p d h r on q root pid_is format_is fuel fits m len =
    let (k, s, e, muted) = set-is_muted r.parameters m on in
    let r'' : Responder = record r { parameters = s } in
    let x : ℕ =
      get_or p.stack 0 0 / 16 * 16
      + (if ltb 0 (sub_device_get_count s) then 2 else 0)
      + (if r.boot_loader then 4 else 0) in
    let (buf', acked, reads) =
      ack-mute p h r'' x (get_or p.stack 1 0) (binding_uid p.ports) fits q fuel len in
    (
      record r'' { driver = record r.driver { data_ = buf' } },
      rw (root, q.not_unique_branch) refl
          ∙ answer_mute_lem p d h r on k s pid_is e
          ∙ ap
              (λ f.
                ack p h f (some (x ∷ get_or p.stack 1 0 ∷ uid_bytes (binding_uid p.ports))) 8 r'')
              format_is
          ∙ acked,
      muted,
      reads,
    )
