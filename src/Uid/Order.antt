-- ===== src/Uid/Order.antt =====
-- The comparisons of UIDs order the 48-bit numbers, and what a request's address selects.
use esp_dmx.Prelude.{◌<◌, ◌≤◌, ◌≡◌, ◌↔◌, ◌⊎◌, true, arith}
use esp_dmx.Uid.{
  Uid, IsUid, number, uid_is_eq, uid_is_lt, uid_is_gt, uid_is_le, uid_is_ge, uid_is_target,
}

-- The five comparisons are those of the 48-bit numbers, for UIDs whose device IDs fit 32 bits.
pub compare-number :
    (a b : Uid)
    → IsUid a
    → IsUid b
    → ((uid_is_eq a b ≡ true) ↔ (number a ≡ number b))
      × ((uid_is_lt a b ≡ true) ↔ (number a < number b))
      × ((uid_is_gt a b ≡ true) ↔ (number b < number a))
      × ((uid_is_le a b ≡ true) ↔ (number a ≤ number b))
      × ((uid_is_ge a b ≡ true) ↔ (number b ≤ number a))
unfolding uid_is_eq uid_is_lt uid_is_gt uid_is_le uid_is_ge
compare-number a b va vb = (
  (λ e. ground arith, λ e. ground arith),
  (λ e. ground arith, λ e. ground arith),
  (λ e. ground arith, λ e. ground arith),
  (λ e. ground arith, λ e. ground arith),
  (λ e. ground arith, λ e. ground arith),
)

-- A request addresses a device exactly when it is sent to the device's own UID, to all devices of
-- the device's manufacturer, or to all devices.
pub target_iff :
    (u alias : Uid)
    → (uid_is_target u alias ≡ true) ↔ (
        ((alias.man_id ≡ u.man_id) × (alias.dev_id ≡ u.dev_id))
        ⊎ (((alias.man_id ≡ u.man_id) ⊎ (alias.man_id ≡ 0xffff)) × (alias.dev_id ≡ 0xffff_ffff)))
unfolding uid_is_target
target_iff u alias = (λ e. grind arith, λ e. grind arith)
