-- ===== src/Packet.antt =====
-- RDM packets: `rdm_header_t` and the predicates of src/rdm/include/types.h, and
-- `rdm_read_header`, `rdm_read_pd` and `rdm_write` of src/rdm/driver.c on the driver's buffer.
pub mod Read
pub mod Write
pub mod Layout
pub mod Frame
pub mod Standard
pub mod Payload
pub mod Discovery
pub mod CommandClass
pub mod Corruption
pub mod Examples
use esp_dmx.Prelude.{
  ℕ, ◌+◌, ◌*◌, ◌/◌, ◌%◌, ◌^◌, ◌<◌, Bool, List, [], ◌∷◌, ◌++◌, ltb, leb, ◌==◌, ◌&&◌, bit_and,
}
use esp_dmx.Uid.{Uid, IsUid}

-- `response_type` is another name of the octet `port_id`.
pub record Header : Type 0 where
  pub message_len : ℕ
  pub dest_uid : Uid
  pub src_uid : Uid
  pub tn : ℕ
  pub port_id : ℕ
  pub message_count : ℕ
  pub sub_device : ℕ
  pub cc : ℕ
  pub pid : ℕ
  pub pdl : ℕ

-- The widths of the fields.
pub record IsHeader (h : Header) : Type 0 where
  pub message_len_fits : h.message_len < 256
  pub dest_fits : IsUid h.dest_uid
  pub src_fits : IsUid h.src_uid
  pub tn_fits : h.tn < 256
  pub port_id_fits : h.port_id < 256
  pub message_count_fits : h.message_count < 256
  pub sub_device_fits : h.sub_device < 2 ^ 16
  pub cc_fits : h.cc < 256
  pub pid_fits : h.pid < 2 ^ 16
  pub pdl_fits : h.pdl < 256

abbrev pub response_type : Header → ℕ
response_type h = h.port_id

-- The constants of enums and macros that the packets use.
abbrev pub sc : ℕ
sc = 0xcc

abbrev pub sub_sc : ℕ
sub_sc = 0x01

abbrev pub preamble : ℕ
preamble = 0xfe

abbrev pub delimiter : ℕ
delimiter = 0xaa

abbrev pub packet_size_max : ℕ
packet_size_max = 513

abbrev pub sub_device_root : ℕ
sub_device_root = 0

abbrev pub sub_device_max : ℕ
sub_device_max = 513

abbrev pub sub_device_all : ℕ
sub_device_all = 0xffff

abbrev pub disc_command : ℕ
disc_command = 0x10

abbrev pub disc_command_response : ℕ
disc_command_response = 0x11

abbrev pub get_command : ℕ
get_command = 0x20

abbrev pub set_command : ℕ
set_command = 0x30

abbrev pub pid_disc_unique_branch : ℕ
pid_disc_unique_branch = 0x0001

abbrev pub response_ack : ℕ
response_ack = 0x00

-- `rdm_cc_is_valid`, with the shift by 8 that the macro has.
unfoldable pub cc_is_valid : ℕ → Bool
cc_is_valid cc = ltb (cc / 2 ^ 8) 4 && ltb (bit_and cc 0xf) 2

unfoldable pub cc_is_request : ℕ → Bool
cc_is_request cc = bit_and cc 1 == 0

unfoldable pub response_type_is_valid : ℕ → Bool
response_type_is_valid t = leb 0x00 t && leb t 0x03

-- The octets of a number in the memory of a little-endian machine.
abbrev pub le16 : ℕ → List ℕ
le16 n = n % 256 ∷ n / 256 % 256 ∷ []

abbrev pub le32 : ℕ → List ℕ
le32 n = n % 256 ∷ n / 256 % 256 ∷ n / 65536 % 256 ∷ n / 16777216 % 256 ∷ []

abbrev pub uid_bytes : Uid → List ℕ
uid_bytes u = le16 u.man_id ++ le32 u.dev_id

-- The packed struct in memory. Its first two octets are unnamed and nothing reads them.
abbrev pub header_bytes : Header → List ℕ
header_bytes h =
    0
    ∷ 0
    ∷ h.message_len % 256
    ∷ (uid_bytes h.dest_uid
        ++ (uid_bytes h.src_uid
            ++ (h.tn % 256
                ∷ h.port_id % 256
                ∷ h.message_count % 256
                ∷ (le16 h.sub_device ++ (h.cc % 256 ∷ (le16 h.pid ++ (h.pdl % 256 ∷ [])))))))

-- `bswap16(*(uint16_t *)p)` and `bswap32(*(uint32_t *)p)`: the octets at `p`, first one highest.
abbrev pub be16 : ℕ → ℕ → ℕ
be16 a b = a * 256 + b

abbrev pub be32 : ℕ → ℕ → ℕ → ℕ → ℕ
be32 a b c d = ((a * 256 + b) * 256 + c) * 256 + d
