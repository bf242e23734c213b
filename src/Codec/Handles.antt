-- ===== src/Codec/Handles.antt =====
-- The handles of the TEE behind CodecAES of optee_examples/tee_sqilte/ta/codec.c: reset gets a new
-- operation and a new key object for each call.
use tee_sqlite.Prelude.{ℕ, ◌==◌, not, List, Option, some, if◌then◌else◌, ◌>>=◌}

-- TEE_MODE_ENCRYPT and TEE_MODE_DECRYPT.
pub data Mode : Type 0 where
  mode_encrypt mode_decrypt : Mode

-- TEE_AllocateOperation for TEE_ALG_AES_GCM with a key of 128 bits, TEE_FreeOperation,
-- TEE_AllocateTransientObject for TEE_TYPE_AES of 128 bits, TEE_FreeTransientObject,
-- TEE_PopulateTransientObject with TEE_ATTR_SECRET_VALUE, TEE_SetOperationKey, and TEE_AEInit with a tag
-- of 128 bits. What they return is not looked at. An allocation gives the handle, and
-- TEE_HANDLE_NULL is 0; a call that panics has no result.
pub record Crypto (S : Type 0) : Type 0 where
  pub allocate_operation : Mode → S → ℕ × S
  pub free_operation : ℕ → S → S
  pub allocate_transient_object : S → ℕ × S
  pub free_transient_object : ℕ → S → S
  pub populate_transient_object : ℕ → List ℕ → S → Option S
  pub set_operation_key : ℕ → ℕ → S → Option S
  pub ae_init : ℕ → List ℕ → S → Option S

-- `test_op_handle` and `test_key_handle` of a codec.
pub record Handles : Type 0 where
  pub op_handle : ℕ
  pub key_handle : ℕ

abbrev pub mode_of_call : ℕ → Mode
mode_of_call isenc = if isenc == 1 then mode_encrypt else mode_decrypt

module _ {S : Type 0} (tee : Crypto S) (iv : List ℕ) where
  unfoldable pub free_old_operation : Handles → S → S
  free_old_operation h s = if not (h.op_handle == 0) then tee.free_operation h.op_handle s else s

  unfoldable pub free_old_key : Handles → S → S
  free_old_key h s = if not (h.key_handle == 0) then tee.free_transient_object h.key_handle s else s

  unfoldable pub reset : Handles → ℕ → List ℕ → S → Option (Handles × S)
  unfolding free_old_operation free_old_key
  reset h isenc key s =
      let (op, s1) = tee.allocate_operation (mode_of_call isenc) (free_old_operation h s) in
      let (object, s2) = tee.allocate_transient_object (free_old_key h s1) in
      (do
        s3 ← tee.populate_transient_object object key s2
        s4 ← tee.set_operation_key op object s3
        s5 ← tee.ae_init op iv s4
        some (record { op_handle = op; key_handle = object }, s5))
