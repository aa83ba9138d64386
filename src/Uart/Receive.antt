-- ===== src/Uart/Receive.antt =====
-- The slots of a standard RDM packet in the buffer, as dmx_uart_isr reads them from the receive queue.
pub mod Pieces
pub mod Whole
pub mod Packets
use esp_dmx.Prelude.{
  ℕ, zero, suc, ◌+◌, ◌-◌, ◌<◌, ◌≤◌, ◌≡◌, refl, sym, ap, ◌∙◌, Bool, true, false, Option, some, List,
  [], ◌∷◌, ◌++◌, arith, ltb, ◌==◌, if◌then◌else◌, ◌>>=◌, length, length-append, take, drop,
  write_at, get_or, min, inl, inr, Bool-cases, append_assoc, append-nil, map, lt→ltb,
}
use esp_dmx.Packet.{Header, sc, cc_is_valid}
use esp_dmx.Packet.Read.{read_header}
use esp_dmx.Packet.Layout.{write_at-zero, write_at-append}
use esp_dmx.Buffer.{idle}
use esp_dmx.Send.{Progress, in_break, in_mab, in_data, complete, Timer}
use esp_dmx.Uart.{Link, Report, Notice, code, ok, notify, absorb, finish}
use esp_dmx.Uart.Parse.{
  opened, is_in_data, parse, parse_rdm, await_slot, received, conclude, slots, receive,
}
use esp_dmx.Uart.Parse.Prefix.{
  IsFrame, Looks, get_or-same, parse_rdm-few, parse_rdm-short, parse_rdm-whole,
}
use esp_dmx.Uart.Transmit.{pass, uart_isr}

take-all : (xs : List ℕ) (n : ℕ) → n ≡ length xs → take n xs ≡ xs
take-all [] zero e = refl
take-all [] (suc n) e = refl
take-all (x ∷ xs) zero e = absurd (omega arith)
take-all (x ∷ xs) (suc n) e = ap (λ l. x ∷ l) (take-all xs n (omega arith))

drop-all : (xs : List ℕ) (n : ℕ) → n ≡ length xs → drop n xs ≡ []
drop-all [] zero e = refl
drop-all [] (suc n) e = refl
drop-all (x ∷ xs) zero e = absurd (omega arith)
drop-all (x ∷ xs) (suc n) e = drop-all xs n (omega arith)

write_behind :
    (p c t d : List ℕ)
    → d ≡ p ++ t
    → length c ≤ length t
    → write_at (length p) c d ≡ (p ++ c) ++ drop (length c) t
write_behind p c t d e h =
    ap (write_at (length p) c) e
    ∙ write_at-append p c t
    ∙ ap (λ z. p ++ z) (write_at-zero c t h)
    ∙ sym (append_assoc p c _)

-- The slots that fit are all put behind those before.
pub absorb_lem :
    (l : Link) (p c t : List ℕ)
    → l.data_ ≡ p ++ t
    → l.rx_fifo ≡ c
    → length p + length t ≡ 513
    → length p < 513
    → length c ≤ length t
    → absorb (some (length p)) l ≡ record l {
      data_ = (p ++ c) ++ drop (length c) t;
      rx_fifo = [];
      head = some (length (p ++ c));
    }
unfolding absorb
absorb_lem l p c t d f h a b =
    (rw (lt→ltb (length p) 513 a) refl)
    ∙ (λ i. record l { data_ = data_is i; rx_fifo = fifo_is i; head = some (head_is i) })
  where
    n : ℕ
    n = min (513 - length p) (length l.rx_fifo)

    n_is : n ≡ length c
    n_is = ap (λ z. min (513 - length p) (length z)) f ∙ omega arith

    data_is : write_at (length p) (take n l.rx_fifo) l.data_ ≡ (p ++ c) ++ drop (length c) t
    data_is =
        ap (λ z. write_at (length p) (take n z) l.data_) f
        ∙ ap (λ z. write_at (length p) z l.data_) (take-all c n n_is)
        ∙ write_behind p c t l.data_ d b

    fifo_is : drop n l.rx_fifo ≡ []
    fifo_is = ap (drop n) f ∙ drop-all c n n_is

    head_is : length p + n ≡ length (p ++ c)
    head_is = ap (λ k. length p + k) n_is ∙ sym (length-append p c)

-- A driver that has the slots `p` of the packet `p ++ q`.
pub record Receiving (p q : List ℕ) (h : Header) (l : Link) : Type 0 where
  pub frame : IsFrame (p ++ q) h
  pub tail : List ℕ
  pub data_is : l.data_ ≡ p ++ tail
  pub room : length p + length tail ≡ 513
  pub head_is : l.head ≡ some (length p)
  pub fifo_is : l.rx_fifo ≡ []
  pub progress_is : opened l.progress ≡ in_data

pub looks :
    {p q : List ℕ} {h : Header} (l : Link)
    → Receiving p q h l
    → 26 ≤ length p
    → Looks l (length p) (get_or (p ++ q) 2 0)
looks {p} {q} l v a = record {
  at_head = v.head_is;
  second = at 1 (omega arith) ∙ v.frame.continues;
  third = at 2 (omega arith);
  valid = ap cc_is_valid (at 20 (omega arith)) ∙ v.frame.cc_valid;
}
  where
    at : (i : ℕ) → i < length p → get_or l.data_ i 0 ≡ get_or (p ++ q) i 0
    at i k = ap (λ d. get_or d i 0) v.data_is ∙ get_or-same p v.tail q i k
