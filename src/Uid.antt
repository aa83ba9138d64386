-- ===== src/Uid.antt =====
-- rdm_uid_t of src/rdm/include/types.h and the comparisons of src/rdm/include/uid.h.
pub mod Order
pub mod Examples
use esp_dmx.Prelude.{ℕ, ◌+◌, ◌*◌, ◌^◌, ◌<◌, Bool, not, ◌&&◌, ◌||◌, ltb, ◌==◌}

pub record Uid : Type 0 where
  pub man_id : ℕ
  pub dev_id : ℕ

-- The widths of the two fields: uint16_t and uint32_t.
pub record IsUid (a : Uid) : Type 0 where
  pub man_fits : a.man_id < 2 ^ 16
  pub dev_fits : a.dev_id < 2 ^ 32

abbrev pub uid_broadcast_all : Uid
uid_broadcast_all = record { man_id = 0xffff; dev_id = 0xffff_ffff }

abbrev pub uid_max : Uid
uid_max = record { man_id = 0xffff; dev_id = 0xffff_fffe }

abbrev pub uid_null : Uid
uid_null = record { man_id = 0; dev_id = 0 }

unfoldable pub uid_is_eq : Uid → Uid → Bool
uid_is_eq a b = a.man_id == b.man_id && a.dev_id == b.dev_id

unfoldable pub uid_is_lt : Uid → Uid → Bool
uid_is_lt a b = ltb a.man_id b.man_id || (a.man_id == b.man_id && ltb a.dev_id b.dev_id)

unfoldable pub uid_is_gt : Uid → Uid → Bool
uid_is_gt a b = ltb b.man_id a.man_id || (a.man_id == b.man_id && ltb b.dev_id a.dev_id)

unfoldable pub uid_is_le : Uid → Uid → Bool
unfolding uid_is_gt
uid_is_le a b = not (uid_is_gt a b)

unfoldable pub uid_is_ge : Uid → Uid → Bool
unfolding uid_is_lt
uid_is_ge a b = not (uid_is_lt a b)

unfoldable pub uid_is_broadcast : Uid → Bool
uid_is_broadcast u = u.dev_id == 0xffff_ffff

unfoldable pub uid_is_null : Uid → Bool
uid_is_null u = u.man_id == 0 && u.dev_id == 0

unfoldable pub uid_is_target : Uid → Uid → Bool
unfolding uid_is_eq
uid_is_target uid alias =
    ((alias.man_id == 0xffff || alias.man_id == uid.man_id) && alias.dev_id == 0xffff_ffff)
    || uid_is_eq uid alias

-- The 48-bit number that the six octets of a UID spell.
abbrev pub number : Uid → ℕ
number a = a.man_id * 2 ^ 32 + a.dev_id
