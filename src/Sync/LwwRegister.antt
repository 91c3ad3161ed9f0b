-- ===== src/Sync/LwwRegister.antt =====
-- `LWWRegister<T>` of sync.rs.
pub mod Convergence
use mnemo.Base.{Bool, true, false, if◌then◌else◌}
use mnemo.Base.Order.{ltk}
use mnemo.Sync.Hlc.{HlcTimestamp, hlc_ord}

pub record LwwRegister {ℓ} (T : Type ℓ) : Type ℓ where
  pub value : T
  pub timestamp : HlcTimestamp

module _ {ℓ} {T : Type ℓ} where
  abbrev pub new : T → HlcTimestamp → LwwRegister T
  new value timestamp = record { value = value; timestamp = timestamp }

  -- `set`: the register after, and whether the write was taken.
  unfoldable pub set : LwwRegister T → T → HlcTimestamp → LwwRegister T × Bool
  set r value timestamp =
      if ltk r.timestamp timestamp
      then (record { value = value; timestamp = timestamp }, true)
      else (r, false)

  unfoldable pub merge : LwwRegister T → LwwRegister T → LwwRegister T
  merge r other =
      if ltk r.timestamp other.timestamp
      then record { value = other.value; timestamp = other.timestamp }
      else r
