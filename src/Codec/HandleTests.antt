-- ===== src/Codec/HandleTests.antt =====
-- A small TEE for reset of optee_examples/tee_sqilte/ta/codec.c: handles count up, and one operation and
-- one key object are kept.
use tee_sqlite.Prelude.{
  ℕ, ◌+◌, ◌-◌, ◌≡◌, refl, ◌==◌, List, none, some, if◌then◌else◌, arith, one, replicate,
}
use tee_sqlite.Codec.Handles.{
  Mode, mode_encrypt, mode_decrypt, Crypto, Handles, free_old_operation, free_old_key, reset,
}
use tee_sqlite.Codec.Operations.{View, IsCrypto, IsReset, reset-IsReset}

-- The next handle, the last mode, the keys of the object and of the operation, the initial vector, and
-- the numbers of operations and objects.
record State : Type 0 where
  next : ℕ
  last_mode : Mode
  object_key : List ℕ
  operation_key : List ℕ
  begun_with : List ℕ
  operations : ℕ
  objects : ℕ

abbrev small : Crypto State
small = record {
  allocate_operation = λ m s.
      (s.next + 1, record s { next = s.next + 1; last_mode = m; operations = s.operations + 1 });
  free_operation = λ op s. record s { operations = s.operations - one op };
  allocate_transient_object =
      λ s. (s.next + 1, record s { next = s.next + 1; objects = s.objects + 1 });
  free_transient_object = λ o s. record s { objects = s.objects - one o };
  populate_transient_object = λ o key s. some (record s { object_key = key });
  set_operation_key =
      λ op o s. if op == 0 then none else some (record s { operation_key = s.object_key });
  ae_init = λ op iv s. some (record s { begun_with = iv });
}

abbrev view : View State
view = record {
  mode = λ op s. some s.last_mode;
  key = λ op s. some s.operation_key;
  vector = λ op s. some s.begun_with;
  secret = λ o s. some s.object_key;
  operations = λ s. s.operations;
  objects = λ s. s.objects;
}

small-IsCrypto : IsCrypto small view
small-IsCrypto = record {
  op_mode = λ m s h. refl;
  op_counted = λ m s. ground arith;
  op_objects = λ m s. refl;
  op_freed = λ op s h. omega (arith, h);
  op_freed_objects = λ op s. refl;
  object_counted = λ s. ground arith;
  object_operations = λ s. refl;
  object_mode = λ op s. refl;
  object_freed = λ o s h. omega (arith, h);
  object_freed_operations = λ o s. refl;
  object_freed_mode = λ o op s. refl;
  populated = λ o key s s' e whole. ground (arith, e);
  populated_leaves = λ o key s s' e. record {
    mode = λ op. ground (arith, e);
    operations = ground (arith, e);
    objects = ground (arith, e);
  };
  keyed = λ op o s s' e. ground (arith, e);
  keyed_leaves = λ op o s s' e. record {
    mode = λ op'. ground (arith, e);
    operations = ground (arith, e);
    objects = ground (arith, e);
  };
  keyed_there = λ op o s s' e null. ground (arith, e, null);
  begun = λ op iv s s' e. (ground (arith, e), ground (arith, e));
  begun_leaves = λ op iv s s' e. record {
    mode = λ op'. ground (arith, e);
    operations = ground (arith, e);
    objects = ground (arith, e);
  };
}

-- A codec that has just encrypted, and is to decrypt with another key.
abbrev old : Handles
old = record { op_handle = 1; key_handle = 2 }

abbrev encrypted : State
encrypted = record {
  next = 2;
  last_mode = mode_encrypt;
  object_key = replicate 16 1;
  operation_key = replicate 16 1;
  begun_with = replicate 16 0;
  operations = 1;
  objects = 1;
}

abbrev new : Handles
new = record { op_handle = 3; key_handle = 4 }

abbrev decrypting : State
decrypting = record {
  next = 4;
  last_mode = mode_decrypt;
  object_key = replicate 16 7;
  operation_key = replicate 16 7;
  begun_with = replicate 16 0;
  operations = 1;
  objects = 1;
}

reset-old : reset small (replicate 16 0) old 0 (replicate 16 7) encrypted ≡ some (new, decrypting)
unfolding reset free_old_operation free_old_key
reset-old = refl

reset-IsReset_example :
    IsReset view (replicate 16 0) old 0 (replicate 16 7) encrypted new decrypting
reset-IsReset_example =
    reset-IsReset small view small-IsCrypto (replicate 16 0) old 0 (replicate 16 7) encrypted new
      decrypting refl (omega arith) (omega arith) reset-old
