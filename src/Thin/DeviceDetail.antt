-- ===== src/Thin/DeviceDetail.antt =====
-- src/thin/device_detail.rs: what is kept for each thin device.
use thin_provisioning_tools.Prelude.{ℕ, [], ◌∷◌, ◌++◌, some, ◌≡◌, ◌∙◌, ap}
use thin_provisioning_tools.Bytes.{Bytes, u32, u64, IsU32, IsU64, ByteOrder}
use thin_provisioning_tools.Bytes.Parse.{Parser, ◌>>=◌, pure, written, written-append, read->>=}

pub record DeviceDetail : Type 0 where
  pub mapped_blocks : ℕ
  pub transaction_id : ℕ
  pub creation_time : ℕ
  pub snapshotted_time : ℕ

module _ (order : ByteOrder) where
  unfoldable pub unpack : Parser DeviceDetail
  unpack = do
    mapped_blocks ← order.read u64
    transaction_id ← order.read u64
    creation_time ← order.read u32
    snapshotted_time ← order.read u32
    pure (record {
      mapped_blocks = mapped_blocks;
      transaction_id = transaction_id;
      creation_time = creation_time;
      snapshotted_time = snapshotted_time;
    })

  unfoldable pub pack : DeviceDetail → Bytes
  pack v =
      written
        (order.write u64 v.mapped_blocks
          ∷ order.write u64 v.transaction_id
          ∷ order.write u32 v.creation_time
          ∷ order.write u32 v.snapshotted_time
          ∷ [])
        []

-- Every field has the width it is stored with.
abbrev pub IsDeviceDetail : DeviceDetail → Type 0
IsDeviceDetail v =
    IsU64 v.mapped_blocks
    × IsU64 v.transaction_id
    × IsU32 v.creation_time
    × IsU32 v.snapshotted_time

module _ (order : ByteOrder) where
  -- A value whose fields have the width they are stored with is read back from what `pack` writes,
  -- whatever follows it.
  pub device_detail_unpack-pack :
      (v : DeviceDetail) (rest : Bytes)
      → IsDeviceDetail v
      → unpack order (pack order v ++ rest) ≡ some (v, rest)
  unfolding unpack pack pure
  device_detail_unpack-pack v rest h =
      ap (unpack order) (
        written-append
          (order.write u64 v.mapped_blocks
            ∷ order.write u64 v.transaction_id
            ∷ order.write u32 v.creation_time
            ∷ order.write u32 v.snapshotted_time
            ∷ [])
          [] rest)
      ∙ read->>= order u64 v.mapped_blocks _ _ h.0
      ∙ read->>= order u64 v.transaction_id _ _ h.1
      ∙ read->>= order u32 v.creation_time _ _ h.2
      ∙ read->>= order u32 v.snapshotted_time _ _ h.3
