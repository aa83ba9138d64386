-- ===== src/Uart/Receive/Whole.antt =====
-- Interrupts that take in a standard RDM packet, one after the other.
use esp_dmx.Prelude.{
  ℕ, ◌<◌, ◌≡◌, refl, sym, ap, ap₂, ◌∙◌, Bool, true, false, Option, some, List, [], ◌∷◌, ◌++◌, arith,
  if◌then◌else◌, ◌>>=◌, length, length-append, get_or, inl, inr, Bool-cases, append-nil,
}
use esp_dmx.Packet.{Header, sc, cc_is_request}
use esp_dmx.Packet.Read.{read_header}
use esp_dmx.Buffer.{idle}
use esp_dmx.Send.{complete}
use esp_dmx.Uart.{Link, Notice, code, ok, notify, finish}
use esp_dmx.Uart.Parse.{conclude, await_slot, received}
use esp_dmx.Uart.Receive.{Receiving}
use esp_dmx.Uart.Receive.Pieces.{
  deliver, await_slot-timer, await_slot-Receiving, parse-before, parse-whole, Receiving-reads,
  Receiving-starts, pass-taken, taken, taken-Receiving,
}
use esp_dmx.Uart.Transmit.{uart_isr}

-- A call of the interrupt at a time, on a slot or more that have arrived.
pub record Arrival : Type 0 where
  pub now : ℕ
  pub first : ℕ
  pub others : List ℕ

abbrev pub arrived : Arrival → List ℕ
arrived a = a.first ∷ a.others

abbrev pub joined : List Arrival → List ℕ
joined [] = []
joined (a ∷ rest) = arrived a ++ joined rest

-- The calls in order.
unfoldable pub interrupts : List Arrival → Link → Option Link
interrupts [] l = some l
interrupts (a ∷ rest) l = uart_isr a.now (deliver (arrived a) ∷ []) l >>= λ l'. interrupts rest l'

-- What the task sees of the link that did not change.
pub record Quiet (l l' : Link) : Type 0 where
  pub same_notices : l'.notices ≡ l.notices
  pub same_task : l'.task_waiting ≡ l.task_waiting
  pub same_mux : l'.mux ≡ l.mux

pub trans_Quiet : {k l m : Link} → Quiet k l → Quiet l m → Quiet k m
trans_Quiet a b = record {
  same_notices = b.same_notices ∙ a.same_notices;
  same_task = b.same_task ∙ a.same_task;
  same_mux = b.same_mux ∙ a.same_mux;
}

await_slot-Quiet : (l : Link) → Quiet l (await_slot l)
await_slot-Quiet l =
    let (t, e) = await_slot-timer l in
    record {
      same_notices = ap (λ (k : Link). k.notices) e;
      same_task = ap (λ (k : Link). k.task_waiting) e;
      same_mux = ap (λ (k : Link). k.mux) e;
    }

-- More is to come: the driver waits on.
pub step-before :
    {p q : List ℕ} {h : Header} (a : Arrival) (l : Link)
    → Receiving p (arrived a ++ q) h l
    → 0 < length q
    → (l' : Link) × (uart_isr a.now (deliver (arrived a) ∷ []) l ≡ some l')
      × Receiving (p ++ arrived a) q h l'
      × Quiet l l'
unfolding uart_isr conclude
step-before {p} {q} a l v b =
    let k : Link = taken p (arrived a) v.tail l in
    let w = taken-Receiving (arrived a) q l v in
    (
      await_slot k,
      ap (λ o. o >>= λ l'. some l') (pass-taken (arrived a) q a.now l v)
          ∙ ap (λ r. some (conclude r))
              (parse-before a.now k w (omega (arith, length-append p (arrived a))) b),
      await_slot-Receiving k w,
      trans_Quiet record { same_notices = refl; same_task = refl; same_mux = refl }
          (await_slot-Quiet k),
    )

-- The driver after a packet that reads as the header `h`. A task that waits is told so, and once.
pub record Received (h : Header) (n : ℕ) (l l' : Link) : Type 0 where
  pub reads : read_header l'.data_ ≡ some h
  pub starts : get_or l'.data_ 0 0 ≡ sc
  pub head_is : l'.head ≡ some n
  pub progress_is : l'.progress ≡ complete
  pub status_is : l'.status ≡ idle
  pub stopped : l'.timer.running ≡ false
  pub mux_kept : l'.mux ≡ l.mux
  pub told : l'.notices ≡ l.notices ++ (if l.task_waiting then code ok ∷ [] else [])

append_if :
    (b : Bool) (n : Notice) (l : Link)
    → (if b then record l { notices = l.notices ++ (n ∷ []) } else l)
      ≡ record l { notices = l.notices ++ (if b then n ∷ [] else []) }
append_if true n l = refl
append_if false n l = λ i. record l { notices = sym (append-nil l.notices) i }

-- A notice is given when a task waits for one.
notify_lem :
    (n : Notice) (l : Link)
    → notify n l ≡ record l { notices = l.notices ++ (if l.task_waiting then n ∷ [] else []) }
unfolding notify
notify_lem n l = append_if l.task_waiting n l

finish-Received :
    {n : ℕ} {h : Header} (l k : Link)
    → read_header k.data_ ≡ some h
    → get_or k.data_ 0 0 ≡ sc
    → k.head ≡ some n
    → Quiet l k
    → Received h n l (finish ok k)
unfolding finish
finish-Received {n} {h} l k a g b u = record {
  reads = ap (λ (m : Link). read_header m.data_) e ∙ a;
  starts = ap (λ (m : Link). get_or m.data_ 0 0) e ∙ g;
  head_is = ap (λ (m : Link). m.head) e ∙ b;
  progress_is = ap (λ (m : Link). m.progress) e;
  status_is = ap (λ (m : Link). m.status) e;
  stopped = ap (λ (m : Link). m.timer.running) e;
  mux_kept = ap (λ (m : Link). m.mux) e ∙ u.same_mux;
  told =
      ap (λ (m : Link). m.notices) e
      ∙ ap₂ (λ ns t. ns ++ (if t then code ok ∷ [] else [])) u.same_notices u.same_task;
}
  where
    ended : Link
    ended = record k {
      timer = record k.timer { running = false };
      progress = complete;
      status = idle;
    }

    e :
        finish ok k
        ≡ record ended { notices = k.notices ++ (if k.task_waiting then code ok ∷ [] else []) }
    e = notify_lem (code ok) ended

record_lem :
    (now : ℕ) (l : Link)
    → ((received now l).data_ ≡ l.data_)
      × ((received now l).head ≡ l.head)
      × Quiet l (received now l)
unfolding received
record_lem now l = elim (Bool-cases (cc_is_request (get_or l.data_ 20 0))) [
  | inl e ↦ rw e (refl, refl, record { same_notices = refl; same_task = refl; same_mux = refl })
  | inr e ↦ rw e (refl, refl, record { same_notices = refl; same_task = refl; same_mux = refl })
]

-- The last slots of the packet.
pub step-whole :
    {p : List ℕ} {h : Header} (a : Arrival) (l : Link)
    → Receiving p (arrived a ++ []) h l
    → (l' : Link) × (uart_isr a.now (deliver (arrived a) ∷ []) l ≡ some l')
      × Received h (length (p ++ arrived a)) l l'
unfolding uart_isr conclude
step-whole {p} {h} a l v =
    let k : Link = taken p (arrived a) v.tail l in
    let w = taken-Receiving (arrived a) [] l v in
    let z = await_slot-Receiving k w in
    let (d, g, u) = record_lem a.now (await_slot k) in
    (
      finish ok (received a.now (await_slot k)),
      ap (λ o. o >>= λ l'. some l') (pass-taken (arrived a) [] a.now l v)
          ∙ ap (λ r. some (conclude r)) (parse-whole a.now k w),
      finish-Received l (received a.now (await_slot k))
          (ap read_header d ∙ Receiving-reads (await_slot k) z)
          (ap (λ s. get_or s 0 0) d
            ∙ Receiving-starts (await_slot k) z (omega (arith, length-append p (arrived a))))
          (g ∙ z.head_is)
          (trans_Quiet record { same_notices = refl; same_task = refl; same_mux = refl }
            (trans_Quiet (await_slot-Quiet k) u)),
    )

pub Received-Quiet :
    {n : ℕ} {h : Header} {k l m : Link} → Quiet k l → Received h n l m → Received h n k m
Received-Quiet u r = record {
  reads = r.reads;
  starts = r.starts;
  head_is = r.head_is;
  progress_is = r.progress_is;
  status_is = r.status_is;
  stopped = r.stopped;
  mux_kept = r.mux_kept ∙ u.same_mux;
  told = r.told ∙ ap₂ (λ ns t. ns ++ (if t then code ok ∷ [] else [])) u.same_notices u.same_task;
}
