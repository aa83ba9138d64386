-- ===== src/Uart/Receive/Packets.antt =====
-- A standard RDM packet reaches the task that waits for it, whatever pieces it arrives in.
use esp_dmx.Prelude.{
  ℕ, ◌+◌, ◌%◌, ◌<◌, ◌≡◌, refl, sym, ap, ◌∙◌, true, some, List, [], ◌∷◌, ◌++◌, arith, ◌>>=◌, length,
  length-append, take, append_assoc, append-nil,
}
use mathlib.Core.Path.{subst}
use esp_dmx.Packet.{Header, IsHeader, cc_is_valid}
use esp_dmx.Packet.Read.{read_header}
use esp_dmx.Packet.Layout.{take-append}
use esp_dmx.Packet.Frame.{packet, packet_header, length-framed, read_header-packet}
use esp_dmx.Send.{in_data}
use esp_dmx.Uart.{Link}
use esp_dmx.Uart.Parse.{opened}
use esp_dmx.Uart.Parse.Prefix.{IsFrame}
use esp_dmx.Uart.Receive.{Receiving}
use esp_dmx.Uart.Receive.Whole.{
  Arrival, arrived, joined, interrupts, Quiet, trans_Quiet, Received, Received-Quiet, step-before,
  step-whole,
}

-- A packet is expected: the driver has seen a break, or it has asked for a response without one.
pub record Waiting (l : Link) : Type 0 where
  pub data_fits : length l.data_ ≡ 513
  pub head_is : l.head ≡ some 0
  pub fifo_is : l.rx_fifo ≡ []
  pub progress_is : opened l.progress ≡ in_data

byte_lem : (n : ℕ) → n < 256 → n % 256 ≡ n
byte_lem n h = omega arith

packet-IsFrame :
    (h : Header) (pd : List ℕ)
    → IsHeader h
    → h.message_len ≡ 24 + length pd
    → cc_is_valid h.cc ≡ true
    → IsFrame (packet h pd []) h
packet-IsFrame h pd v e c = record {
  starts = refl;
  continues = refl;
  len = len;
  at_least_24 = omega (arith, e, v.message_len_fits);
  fits = omega (arith, len, v.message_len_fits);
  cc_valid = ap cc_is_valid (byte_lem h.cc v.cc_fits) ∙ c;
  reads = λ rest.
      ap read_header (append_assoc (packet_header h ++ pd) _ rest)
      ∙ read_header-packet h pd rest v e;
}
  where
    len : length (packet h pd []) ≡ h.message_len % 256 + 2
    len = omega (arith, length-framed (packet_header h ++ pd) [], e, v.message_len_fits)

Waiting-Receiving :
    {q : List ℕ} {h : Header} (l : Link) → IsFrame q h → Waiting l → Receiving [] q h l
Waiting-Receiving l f w = record {
  frame = f;
  tail = l.data_;
  data_is = refl;
  room = omega (arith, w.data_fits);
  head_is = w.head_is;
  fifo_is = w.fifo_is;
  progress_is = w.progress_is;
}

whole :
    {h : Header} (p : List ℕ) (a : Arrival) (rest : List Arrival) (l : Link)
    → Receiving p (arrived a ++ joined rest) h l
    → (l' : Link) × (interrupts (a ∷ rest) l ≡ some l')
      × Received h (length (p ++ (arrived a ++ joined rest))) l l'
unfolding interrupts
whole {h} p a [] l v =
    let (l', e, r) = step-whole a l v in
    (
      l',
      ap (λ o. o >>= interrupts []) e,
      subst (λ z. Received h (length (p ++ z)) l l') (sym (append-nil (arrived a))) r,
    )
whole {h} p a (b ∷ rest) l v =
    let (k, e, w, u) = step-before a l v (omega arith) in
    let (l', f, r) = whole (p ++ arrived a) b rest k w in
    (
      l',
      ap (λ o. o >>= interrupts (b ∷ rest)) e ∙ f,
      subst (λ z. Received h (length z) l l') (append_assoc p (arrived a) (joined (b ∷ rest)))
          (Received-Quiet u r),
    )

part :
    {h : Header} (p q : List ℕ) (calls : List Arrival) (l : Link)
    → Receiving p (joined calls ++ q) h l
    → 0 < length q
    → (l' : Link) × (interrupts calls l ≡ some l')
      × Receiving (p ++ joined calls) q h l'
      × Quiet l l'
unfolding interrupts
part {h} p q [] l v b = (
  l,
  refl,
  subst (λ z. Receiving z q h l) (sym (append-nil p)) v,
  record { same_notices = refl; same_task = refl; same_mux = refl },
)
part {h} p q (a ∷ calls) l v b =
    let (k, e, w, u) =
      step-before a l (subst (λ z. Receiving p z h l) (append_assoc (arrived a) (joined calls) q) v)
        (omega (arith, length-append (joined calls) q, b)) in
    let (l', f, r, t) = part (p ++ arrived a) q calls k w b in
    (
      l',
      ap (λ o. o >>= interrupts calls) e ∙ f,
      subst (λ z. Receiving z q h l') (append_assoc p (arrived a) (joined calls)) r,
      trans_Quiet u t,
    )

-- A standard RDM packet that arrives while the driver waits for one is received, whatever pieces it
-- arrives in, a slot or more at every call of the interrupt: the calls return; then the progress is
-- complete, the status idle and the timer stopped, the head counts the packet's slots, the buffer
-- reads as the packet's header, and a task that waits has been notified once, with DMX_OK.
pub interrupts-packet :
    (h : Header) (pd : List ℕ) (calls : List Arrival) (l : Link)
    → IsHeader h
    → h.message_len ≡ 24 + length pd
    → cc_is_valid h.cc ≡ true
    → joined calls ≡ packet h pd []
    → Waiting l
    → (l' : Link) × (interrupts calls l ≡ some l') × Received h (h.message_len + 2) l l'
interrupts-packet h pd [] l v e c j w = absurd (omega (arith, ap length j))
interrupts-packet h pd (a ∷ rest) l v e c j w =
    let f = packet-IsFrame h pd v e c in
    let (l', g, r) =
      whole [] a rest l (Waiting-Receiving l (subst (λ z. IsFrame z h) (sym j) f) w) in
    let size : length (joined (a ∷ rest)) ≡ h.message_len + 2 =
      ap length j ∙ f.len ∙ ap (λ n. n + 2) (byte_lem h.message_len v.message_len_fits) in
    (l', g, subst (λ n. Received h n l l') size r)

-- As long as slots of a standard RDM packet are missing, the interrupt waits for more: it keeps all
-- that have arrived in the buffer, does not take the packet for complete, and notifies no task.
pub interrupts-packet-part :
    (h : Header) (pd q : List ℕ) (calls : List Arrival) (l : Link)
    → IsHeader h
    → h.message_len ≡ 24 + length pd
    → cc_is_valid h.cc ≡ true
    → joined calls ++ q ≡ packet h pd []
    → 0 < length q
    → Waiting l
    → (l' : Link) × (interrupts calls l ≡ some l')
      × (take (length (joined calls)) l'.data_ ≡ joined calls)
      × (l'.head ≡ some (length (joined calls)))
      × (opened l'.progress ≡ in_data)
      × (l'.notices ≡ l.notices)
interrupts-packet-part h pd q calls l v e c j b w =
    let f = subst (λ z. IsFrame z h) (sym j) (packet-IsFrame h pd v e c) in
    let (l', g, r, t) = part [] q calls l (Waiting-Receiving l f w) b in
    (
      l',
      g,
      ap (take (length (joined calls))) r.data_is ∙ take-append (joined calls) r.tail,
      r.head_is,
      r.progress_is,
      t.same_notices,
    )
