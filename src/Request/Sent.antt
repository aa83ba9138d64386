-- ===== src/Request/Sent.antt =====
-- The octets in the buffer, put aside for a request and written back.
use esp_dmx.Prelude.{
  ℕ, ◌≡◌, refl, ap, ◌∙◌, false, some, List, arith, ltb, ◌==◌, ◌>>=◌, if◌then◌else◌, length,
  length-write_at, take, replicate, write_at,
}
use esp_dmx.Buffer.{Status, idle}
use esp_dmx.Buffer as Slots
use esp_dmx.Parameter.RoundTrip.{prefix}
use esp_dmx.Send.{Driver}
use esp_dmx.Request.{write_back}

-- What `dmx_read` puts to the 257 octets of `old_data`.
abbrev pub old_of : ℕ → List ℕ → List ℕ
old_of n data_ = write_at 0 (take n data_) (replicate 257 0)

pub read-old : (data_ : List ℕ) → Slots.read data_ (replicate 257 0) 26 ≡ some (26, old_of 26 data_)
unfolding Slots.read Slots.read_offset Slots.clamp_size Slots.copy_out
read-old data_ = refl

write-idle :
    (data_ old : List ℕ) (rts : ℕ)
    → ltb (length old) 26 ≡ false
    → Slots.write (record { data_ = data_; status = idle; rts = rts }) old 26
      ≡ some (
        26,
        record {
          data_ = write_at 0 (take 26 old) data_;
          status = idle;
          rts = if rts == 1 then 0 else rts;
        },
      )
unfolding Slots.write Slots.write_offset Slots.clamp_size Slots.copy_in
write-idle data_ old rts fits = rw fits refl

pub write_back-old :
    (data_ : List ℕ) (d : Driver)
    → length data_ ≡ 513
    → d.status ≡ idle
    → (d' : Driver) × (write_back (old_of 26 data_) 26 d ≡ some d')
      × (d'.data_ ≡ write_at 0 (take 26 data_) d.data_)
unfolding write_back
write_back-old data_ d len quiet =
    let fits : ltb (length (old_of 26 data_)) 26 ≡ false =
      ap (λ n. ltb n 26) (length-write_at 0 (take 26 data_) (replicate 257 0)) in
    (
      record d {
        data_ = write_at 0 (take 26 (old_of 26 data_)) d.data_;
        rts = if d.rts == 1 then 0 else d.rts;
      },
      ap
            (λ s.
              Slots.write (record { data_ = d.data_; status = s; rts = d.rts }) (old_of 26 data_) 26
              >>= λ (k, port). some (record d { data_ = port.data_; rts = port.rts }))
            quiet
          ∙ ap (λ o. o >>= λ (k, port). some (record d { data_ = port.data_; rts = port.rts }))
              (write-idle d.data_ (old_of 26 data_) d.rts fits),
      ap (λ s. write_at 0 s d.data_)
          (prefix 26 26 data_ (replicate 257 0) (omega arith) (omega arith) (omega arith)),
    )
