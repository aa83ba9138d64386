-- ===== src/Uart/Receive/Pieces.antt =====
-- One call of dmx_uart_isr on some more slots of a standard RDM packet.
use esp_dmx.Prelude.{
  ℕ, ◌+◌, ◌-◌, ◌<◌, ◌≤◌, ◌≡◌, refl, sym, ap, ◌∙◌, true, false, some, List, [], ◌++◌, arith, ltb,
  length, length-append, drop, get_or, inl, inr, Bool-cases, append_assoc, append-nil,
}
use mathlib.Core.Path.{subst}
use esp_dmx.Packet.{Header, sc}
use esp_dmx.Packet.Read.{read_header}
use esp_dmx.Packet.Layout.{length-drop}
use esp_dmx.Send.{in_data, Timer}
use esp_dmx.Uart.{Link, Report, absorb}
use esp_dmx.Uart.Parse.{opened, parse, parse_rdm, await_slot, received, conclude, slots, receive}
use esp_dmx.Uart.Parse.Prefix.{
  IsFrame, get_or-same, parse_rdm-few, parse_rdm-short, parse_rdm-whole,
}
use esp_dmx.Uart.Receive.{absorb_lem, Receiving, looks}
use esp_dmx.Uart.Transmit.{pass}

-- Slots have arrived, and nothing else has happened.
abbrev pub deliver : List ℕ → Report
deliver c = record {
  arrived = c;
  rx_data = true;
  rx_break = false;
  rx_overflow = false;
  rx_framing = false;
  tx_data = false;
  tx_done = false;
  room = 0;
}

pub await_slot-timer : (l : Link) → (t : Timer) × (await_slot l ≡ record l { timer = t })
unfolding await_slot
await_slot-timer l = elim (Bool-cases l.is_controller) [
  | inl e ↦ (record l.timer { counter = 0; alarm = 2000; auto_reload = false }, rw e refl)
  | inr e ↦ (l.timer, rw e refl)
]

module _ {p q : List ℕ} {h : Header} where
  pub await_slot-Receiving : (l : Link) → Receiving p q h l → Receiving p q h (await_slot l)
  await_slot-Receiving l v =
      let (t, e) = await_slot-timer l in
      record {
        frame = v.frame;
        tail = v.tail;
        data_is = ap (λ (k : Link). k.data_) e ∙ v.data_is;
        room = v.room;
        head_is = ap (λ (k : Link). k.head) e ∙ v.head_is;
        fifo_is = ap (λ (k : Link). k.rx_fifo) e ∙ v.fifo_is;
        progress_is = ap (λ (k : Link). opened k.progress) e ∙ v.progress_is;
      }

  len_lem : (l : Link) → Receiving p q h l → length p + length q ≡ get_or (p ++ q) 2 0 + 2
  len_lem l v = sym (length-append p q) ∙ v.frame.len

  pub Receiving-starts : (l : Link) → Receiving p q h l → 0 < length p → get_or l.data_ 0 0 ≡ sc
  Receiving-starts l v a =
      ap (λ d. get_or d 0 0) v.data_is ∙ get_or-same p v.tail q 0 a ∙ v.frame.starts

  parse-rdm :
      (now : ℕ) (l : Link)
      → Receiving p q h l
      → 0 < length p
      → parse now l ≡ parse_rdm now (await_slot l)
  unfolding parse
  parse-rdm now l v a = rw (Receiving-starts l v a) refl

  pub parse-before :
      (now : ℕ) (l : Link)
      → Receiving p q h l
      → 0 < length p
      → 0 < length q
      → parse now l ≡ (false, await_slot l)
  parse-before now l v a b = parse-rdm now l v a ∙ (elim (Bool-cases (ltb (length p) 26)) [
    | inl e ↦ parse_rdm-few now (await_slot l) (length p) w.head_is (ground arith)
    | inr e ↦
        parse_rdm-short now (await_slot l) (length p) (get_or (p ++ q) 2 0)
          (looks (await_slot l) w (ground arith)) (ground arith) v.frame.at_least_24
          (omega (arith, len_lem l v))
  ])
    where
      w : Receiving p q h (await_slot l)
      w = await_slot-Receiving l v

pub Receiving-reads :
    {p : List ℕ} {h : Header} (l : Link) → Receiving p [] h l → read_header l.data_ ≡ some h
Receiving-reads {p} l w =
    ap read_header (w.data_is ∙ ap (λ z. z ++ w.tail) (sym (append-nil p))) ∙ w.frame.reads w.tail

pub parse-whole :
    {p : List ℕ} {h : Header} (now : ℕ) (l : Link)
    → Receiving p [] h l
    → parse now l ≡ (true, received now (await_slot l))
parse-whole {p} {h} now l v =
    parse-rdm now l v (omega (arith, len, v.frame.at_least_24))
    ∙ parse_rdm-whole now (await_slot l) (length p) (get_or (p ++ []) 2 0) h
        (looks (await_slot l) w (omega (arith, len, v.frame.at_least_24))) v.frame.at_least_24 len
        (Receiving-reads (await_slot l) w)
  where
    len : length p ≡ get_or (p ++ []) 2 0 + 2
    len = ap length (sym (append-nil p)) ∙ v.frame.len

    w : Receiving p [] h (await_slot l)
    w = await_slot-Receiving l v

-- The driver when it has read the slots `c`.
abbrev pub taken : List ℕ → List ℕ → List ℕ → Link → Link
taken p c t l = record l {
  data_ = (p ++ c) ++ drop (length c) t;
  rx_fifo = [];
  head = some (length (p ++ c));
  progress = in_data;
}

module _ {p : List ℕ} (c q : List ℕ) {h : Header} where
  tail-length : (l : Link) (v : Receiving p (c ++ q) h l) → length p + length (c ++ q) ≤ 257
  tail-length l v = omega (arith, sym (length-append p (c ++ q)), v.frame.fits)

  pub taken-Receiving :
      (l : Link) (v : Receiving p (c ++ q) h l) → Receiving (p ++ c) q h (taken p c v.tail l)
  taken-Receiving l v = record {
    frame = subst (λ xs. IsFrame xs h) (sym (append_assoc p c q)) v.frame;
    tail = drop (length c) v.tail;
    data_is = refl;
    room = omega (
      arith,
      length-append p c,
      v.room,
      length-drop (length c) (length v.tail - length c) v.tail room_lem,
      room_lem,
    );
    head_is = refl;
    fifo_is = refl;
    progress_is = refl;
  }
    where
      room_lem : length v.tail ≡ length c + (length v.tail - length c)
      room_lem = omega (arith, tail-length l v, v.room, length-append c q)

  -- Reading the slots, and then parsing.
  pub pass-taken :
      (now : ℕ) (l : Link) (v : Receiving p (c ++ q) h l)
      → pass now (deliver c) l ≡ some (conclude (parse now (taken p c v.tail l)))
  unfolding pass receive slots
  pass-taken now l v =
      ap (λ k. some (receive now (deliver c) k)) fifo
      ∙ ap (λ k. some (slots now (deliver c) k)) (ap (λ o. absorb o l') v.head_is ∙ absorbed)
      ∙ ap some (rw v.progress_is refl)
    where
      l' : Link
      l' = record l { rx_fifo = c }

      fifo : record l { rx_fifo = l.rx_fifo ++ c } ≡ l'
      fifo = ap (λ z. record l { rx_fifo = z ++ c }) v.fifo_is

      absorbed : absorb (some (length p)) l' ≡ record l {
        data_ = (p ++ c) ++ drop (length c) v.tail;
        rx_fifo = [];
        head = some (length (p ++ c));
      }
      absorbed =
          absorb_lem l' p c v.tail v.data_is refl v.room (omega (arith, tail-length l v))
            (omega (arith, tail-length l v, v.room, length-append c q))
