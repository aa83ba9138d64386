-- ===== src/Uart/Transmit/Whole.antt =====
-- Interrupts that give the slots of a packet to the send queue.
use esp_dmx.Prelude.{
  ℕ, ◌+◌, ◌-◌, ◌≤◌, ◌≡◌, refl, ap, ap₂, ◌∙◌, true, false, some, List, [], ◌∷◌, ◌++◌, arith, ◌==◌,
  if◌then◌else◌, ◌>>=◌, map, take, drop, min,
}
use mathlib.Core.Path.{subst}
use esp_dmx.Packet.Layout.{take-drop}
use esp_dmx.Uart.{Link, Report}
use esp_dmx.Uart.Transmit.{send_slots, pass, uart_isr}

-- The send queue asks for slots, and has room for so many.
abbrev pub ready : ℕ → Report
ready n = record {
  arrived = [];
  rx_data = false;
  rx_break = false;
  rx_overflow = false;
  rx_framing = false;
  tx_data = true;
  tx_done = false;
  room = n;
}

abbrev pub sum : List ℕ → ℕ
sum [] = 0
sum (n ∷ ns) = n + sum ns

-- The first `n` slots of `data_` are in the send queue.
pub record Sending (data_ : List ℕ) (size n : ℕ) (l : Link) : Type 0 where
  pub data_is : l.data_ ≡ data_
  pub size_is : l.size ≡ size
  pub head_is : l.head ≡ some n
  pub sent_is : l.tx_sent ≡ take n data_

-- One pass gives as many as there is room for, and asks for no more behind the last slot.
pass_step :
    (data_ : List ℕ) (size now room n : ℕ) (l : Link)
    → Sending data_ size n l
    → (l' : Link) × (pass now (ready room) l ≡ some l')
      × Sending data_ size (n + min (size - n) room) l'
      × (n + min (size - n) room ≡ size → l'.tx_data_enabled ≡ false)
unfolding pass send_slots
pass_step data_ size now room n l v =
    let m = min (l.size - n) room in
    let same : m ≡ min (size - n) room = ap (λ z. min (z - n) room) v.size_is in
    (
      record l {
        rx_fifo = l.rx_fifo ++ [];
        tx_sent = l.tx_sent ++ take m (drop n l.data_);
        head = some (n + m);
        tx_data_enabled = if n + m == l.size then false else l.tx_data_enabled;
      },
      ap (λ o. send_slots room o (record l { rx_fifo = l.rx_fifo ++ [] })) v.head_is,
      record {
        data_is = v.data_is;
        size_is = v.size_is;
        head_is = ap (λ k. some (n + k)) same;
        sent_is =
            ap₂ (λ a d. a ++ take m (drop n d)) v.sent_is v.data_is
            ∙ take-drop n m data_
            ∙ ap (λ k. take (n + k) data_) same;
      },
      λ full.
          let e : (n + m == l.size) ≡ true = ground (arith, same, full, v.size_is) in
          ap (λ b. if b then false else l.tx_data_enabled) e,
    )

whole :
    (data_ : List ℕ) (size now room n : ℕ) (rooms : List ℕ) (l : Link)
    → Sending data_ size n l
    → n ≤ size
    → size ≤ n + sum (room ∷ rooms)
    → (l' : Link) × (uart_isr now (map ready (room ∷ rooms)) l ≡ some l')
      × Sending data_ size size l'
      × (l'.tx_data_enabled ≡ false)
unfolding uart_isr
whole data_ size now room n [] l v a b =
    let (l', e, w, d) = pass_step data_ size now room n l v in
    let full : n + min (size - n) room ≡ size = omega arith in
    (l', ap (λ o. o >>= uart_isr now []) e, subst (λ k. Sending data_ size k l') full w, d full)
whole data_ size now room n (r ∷ rooms) l v a b =
    let (k, e, w, d) = pass_step data_ size now room n l v in
    let (l', f, u, g) =
      whole data_ size now r (n + min (size - n) room) rooms k w (omega arith) (omega arith) in
    (l', ap (λ o. o >>= uart_isr now (map ready (r ∷ rooms))) e ∙ f, u, g)

-- A packet of `size` slots in the buffer, not yet begun, is sent whole by any number of passes in
-- which the send queue has room for as many slots altogether: the passes return, the slots given to
-- the send queue are the first `size` ones of the buffer in order, the buffer is as it was, and the
-- interrupt asks for no more room.
pub uart_isr-sends :
    (now room : ℕ) (rooms : List ℕ) (l : Link)
    → l.head ≡ some 0
    → l.tx_sent ≡ []
    → l.size ≤ sum (room ∷ rooms)
    → (l' : Link) × (uart_isr now (map ready (room ∷ rooms)) l ≡ some l')
      × (l'.tx_sent ≡ take l.size l.data_)
      × (l'.data_ ≡ l.data_)
      × (l'.head ≡ some l.size)
      × (l'.tx_data_enabled ≡ false)
uart_isr-sends now room rooms l h s b =
    let (l', e, v, d) =
      whole l.data_ l.size now room 0 rooms l
        record { data_is = refl; size_is = refl; head_is = h; sent_is = s } (omega arith)
        (omega arith) in
    (l', e, v.sent_is, v.data_is, v.head_is, d)
