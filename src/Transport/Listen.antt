-- ===== src/Transport/Listen.antt =====
-- The listeners of common/dds_transport.c, which the DDS library calls on its own threads: a state `S` and the
-- callbacks that were set on it. Their log messages are not modelled.
use rmt_library.Common.{
  ℕ, ◌&&◌, if◌then◌else◌, ◌==◌, Option, none, some, List, [], ◌∷◌, Bytes, ℤ, is_neg,
}
use rmt_library.Transport.{Taken, is_pos}

-- the fields that are read of `dds_liveliness_changed_status_t`, `dds_subscription_matched_status_t` and
-- `dds_publication_matched_status_t`
pub record Liveliness : Type 0 where
  pub not_alive_count : ℕ
  pub last_publication_handle : ℕ

pub record Subscription : Type 0 where
  pub current_count_change : ℤ
  pub last_publication_handle : ℕ

pub record Publication : Type 0 where
  pub current_count_change : ℤ
  pub current_count : ℕ

module _ {ℓ} {S : Type ℓ} where
  -- `if (g_device_delete_callback)`, and the same for a robot ID
  abbrev pub call {κ} : {A : Type κ} → Option (A → S → S) → A → S → S
  call none a s = s
  call (some f) a s = f a s

  -- `callback_liveliness_changed`
  unfoldable pub callback_liveliness_changed : Option (ℕ → S → S) → Liveliness → S → S
  callback_liveliness_changed delete status s =
      if status.not_alive_count == 0 then s else call delete status.last_publication_handle s

  -- `callback_publication_matched`
  unfoldable pub callback_publication_matched : Publication → S → S
  callback_publication_matched status s = s

  -- `callback_subscription_matched`
  unfoldable pub callback_subscription_matched : Option (ℕ → S → S) → Subscription → S → S
  callback_subscription_matched delete status s =
      if is_neg status.current_count_change then call delete status.last_publication_handle s else s

  -- `callback_data_available` (with SUPPORT_ZENOH): the list is what `dds_take` answers, of the robot IDs; an
  -- empty list is a reader with no sample.
  unfoldable pub callback_data_available : Option (Bytes → S → S) → List (Taken Bytes) → S → S
  callback_data_available delete [] s = s
  callback_data_available delete (t ∷ takes) s =
      let later = callback_data_available delete takes (call delete t.sample s) in
      if is_neg t.rc then s else if is_pos t.rc && t.valid_data then later else s
