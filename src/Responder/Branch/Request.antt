-- ===== src/Responder/Branch/Request.antt =====
-- The request DISC_UNIQUE_BRANCH, and what a responder reads from it.
use esp_dmx.Prelude.{
  ℕ, zero, suc, ◌/◌, ◌%◌, ◌<◌, ◌≤◌, ◌≡◌, refl, ap, ap₂, ◌∙◌, Bool, true, false, none, some, List,
  [], ◌∷◌, arith, ◌>>=◌, ltb, if◌then◌else◌, length, get_elem?, Bool-cases, inl, inr, not, ◌&&◌,
  take, drop, write_at, length-take, ◌||◌,
}
use esp_dmx.Uid.{Uid, IsUid, uid_broadcast_all, uid_is_lt, uid_is_gt}
use esp_dmx.Format.{
  Encoded, finished, format_encode, format_is_valid, encode_tokens, Cursor, start, advance, swapped,
  uid, returned,
}
use esp_dmx.Packet.{Header}
use esp_dmx.Packet.Read.{read_pd}
use esp_dmx.Packet.Layout.{write_at-zero}
use esp_dmx.Packet.Frame.{packet, uid_ext, be16_bytes, be32_bytes}
use esp_dmx.Parameter.{Param, get_entry}
use esp_dmx.Responder.{
  Definition, Responder, Program, disc, discovery, read_request, filled, uid_in, is_muted,
  answer_branch, ack,
}

-- The octets of a UID in network order.
abbrev pub octets : Uid → List ℕ → List ℕ
octets u rest =
    u.man_id / 256 % 256
    ∷ u.man_id % 256
    ∷ u.dev_id / 16777216 % 256
    ∷ u.dev_id / 65536 % 256
    ∷ u.dev_id / 256 % 256
    ∷ u.dev_id % 256
    ∷ rest

-- The octets of a request that a controller numbers it with.
pub record Stamp : Type 0 where
  pub tn : ℕ
  pub port_id : ℕ
  pub message_count : ℕ

pub record IsStamp (s : Stamp) : Type 0 where
  pub tn_fits : s.tn < 256
  pub port_id_fits : s.port_id < 256
  pub message_count_fits : s.message_count < 256

-- The request to all devices, from a controller, with a transaction number, the number of its port,
-- and a message count.
abbrev pub branch_request : Uid → Stamp → Header
branch_request src stamp = record {
  message_len = 36;
  dest_uid = uid_broadcast_all;
  src_uid = src;
  tn = stamp.tn;
  port_id = stamp.port_id;
  message_count = stamp.message_count;
  sub_device = 0;
  cc = 0x10;
  pid = 1;
  pdl = 12;
}

-- "uu$"
abbrev pub branch_format : List ℕ
branch_format = b'u' ∷ b'u' ∷ b'$' ∷ []

abbrev pub bounds : Uid → Uid → List ℕ
bounds lo hi = octets lo (octets hi [])

abbrev pub branch_packet : Uid → Stamp → Uid → Uid → List ℕ → List ℕ
branch_packet src stamp lo hi rest = packet (branch_request src stamp) (bounds lo hi) rest

memory : Uid → List ℕ → List ℕ
memory u rest =
    u.man_id % 256
    ∷ u.man_id / 256 % 256
    ∷ u.dev_id % 256
    ∷ u.dev_id / 256 % 256
    ∷ u.dev_id / 65536 % 256
    ∷ u.dev_id / 16777216 % 256
    ∷ rest

encode_tokens-uid :
    (nulls : Bool) (f : List ℕ) (s : Cursor)
    → 6 ≤ length s.src
    → encode_tokens nulls zero (b'u' ∷ f) s
      ≡ encode_tokens nulls zero f (advance 6 (swapped uid s.src) s)
unfolding encode_tokens
encode_tokens-uid nulls f s h = let e : ltb (length s.src) 6 ≡ false = ground arith in rw e refl

tokens :
    (lo hi : Uid) (rest : List ℕ)
    → encode_tokens true zero branch_format (start (octets lo (octets hi rest)) 12)
      ≡ returned (finished (memory lo (memory hi [])) 12)
unfolding memory encode_tokens
tokens lo hi rest =
    encode_tokens-uid true (b'u' ∷ b'$' ∷ []) (start (octets lo (octets hi rest)) 12) (omega arith)
    ∙ encode_tokens-uid true (b'$' ∷ [])
        (advance 6 (swapped uid (octets lo (octets hi rest)))
          (start (octets lo (octets hi rest)) 12))
        (omega arith)

format_encode-branch :
    (n : ℕ) (lo hi : Uid) (rest : List ℕ)
    → format_encode (suc n) (some branch_format) (octets lo (octets hi rest)) 12 true
      ≡ finished (memory lo (memory hi [])) 12
unfolding format_encode format_is_valid esp_dmx.Format.check esp_dmx.Format.encode_loop
format_encode-branch n lo hi rest = rw (tokens lo hi rest) refl

read_pd-branch :
    (n : ℕ) (src : Uid) (stamp : Stamp) (lo hi : Uid) (rest : List ℕ)
    → read_pd (suc n) (branch_packet src stamp lo hi rest) (some branch_format) 12
      ≡ some (12, some (finished (memory lo (memory hi [])) 12))
unfolding read_pd format_is_valid esp_dmx.Format.check
read_pd-branch n src stamp lo hi rest = ap (λ e. some (12, some e)) (format_encode-branch n lo hi _)

-- A responder that has received the request, and has the parameter as the library registers it.
pub record Asked (p : Program) (src : Uid) (stamp : Stamp) (lo hi : Uid) (rest : List ℕ)
    (r : Responder) : Type 0 where
  pub fuel : ℕ
  pub fuel_is : p.fuel ≡ suc fuel
  pub stack_fits : 12 ≤ length p.stack
  pub buffer_is : r.driver.data_ ≡ branch_packet src stamp lo hi rest
  pub buffer_fits : length r.driver.data_ ≡ 513
  pub uid_fits : IsUid r.uid
  pub src_fits : IsUid src
  pub lo_fits : IsUid lo
  pub hi_fits : IsUid hi
  pub stamp_fits : IsStamp stamp
  pub params : List Param
  pub index : ℕ
  pub entry : Param
  pub address : ℕ
  pub definition : Definition
  pub entry_found : get_entry r.parameters 0 1 ≡ some (some (params, index))
  pub entry_at : get_elem? params index ≡ some entry
  pub defined : entry.definition ≡ some address
  pub definition_at : p.definitions address ≡ some definition
  pub is_disc : definition.pid_cc ≡ disc
  pub handled : definition.get_.handler ≡ some discovery
  pub format_is : definition.get_.request_format ≡ some branch_format

-- The two bounds in the handler's variable are those of the request.
uid_in-memory : (u : Uid) (rest : List ℕ) → IsUid u → uid_in (memory u rest) 0 ≡ u
unfolding memory
uid_in-memory u rest v = uid_ext (be16_bytes u.man_id v.man_fits) (be32_bytes u.dev_id v.dev_fits)

uid_in-memory_second :
    (u v : Uid) (rest : List ℕ) → IsUid v → uid_in (memory u (memory v rest)) 6 ≡ v
unfolding memory
uid_in-memory_second u v rest f =
    uid_ext (be16_bytes v.man_id f.man_fits) (be32_bytes v.dev_id f.dev_fits)

pub read_request-branch :
    (p : Program) (src : Uid) (stamp : Stamp) (lo hi : Uid) (rest : List ℕ) (r : Responder)
    → Asked p src stamp lo hi rest r
    → (m : List ℕ) × (read_request p (some branch_format) 12 12 r ≡ some (12, m))
      × (uid_in m 0 ≡ lo)
      × (uid_in m 6 ≡ hi)
unfolding read_request memory
read_request-branch p src stamp lo hi rest r a =
    let old : List ℕ = take 12 p.stack in
    let room : 12 ≤ length old = omega (arith, length-take 12 p.stack, a.stack_fits) in
    (
      write_at 0 (memory lo (memory hi [])) old,
      ap (λ z. z >>= λ (n, e). filled old e >>= λ m. some (n, m))
          (ap₂ (λ f d. read_pd f d (some branch_format) 12) a.fuel_is a.buffer_is
            ∙ read_pd-branch a.fuel src stamp lo hi rest),
      ap (λ m. uid_in m 0) (write_at-zero (memory lo (memory hi [])) old room)
          ∙ uid_in-memory lo (memory hi (drop 12 old)) a.lo_fits,
      ap (λ m. uid_in m 6) (write_at-zero (memory lo (memory hi [])) old room)
          ∙ uid_in-memory_second lo hi (drop 12 old) a.hi_fits,
    )

-- Whether the device is to answer.
abbrev pub in_range : Uid → Uid → Uid → Bool
in_range lo hi this = not (uid_is_lt this lo || uid_is_gt this hi)

pub answer_branch-asked :
    (p : Program) (src : Uid) (stamp : Stamp) (lo hi : Uid) (rest : List ℕ) (r : Responder)
    (muted : Bool)
    → (a : Asked p src stamp lo hi rest r) → is_muted r.parameters ≡ some muted
    → answer_branch p a.definition (branch_request src stamp) r ≡ (
        if not muted && in_range lo hi r.uid
        then ack p (branch_request src stamp) none none 0 r
        else some (0, r))
unfolding answer_branch
answer_branch-asked p src stamp lo hi rest r true a e = rw e refl
answer_branch-asked p src stamp lo hi rest r false a e =
    let (m, f, g, h) = read_request-branch p src stamp lo hi rest r a in
    rw (e, a.format_is, f, g, h)
      (elim (Bool-cases (uid_is_lt r.uid lo || uid_is_gt r.uid hi)) [
        | inl t ↦ rw t refl
        | inr t ↦ rw t refl
      ])
