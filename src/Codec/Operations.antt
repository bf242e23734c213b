-- ===== src/Codec/Operations.antt =====
-- The operations and key objects of the TEE that reset of optee_examples/tee_sqilte/ta/codec.c leaves.
use tee_sqlite.Prelude.{
  ℕ, ◌+◌, ◌≤◌, ◌≡◌, ◌≢◌, refl, sym, ap, subst, ◌∙◌, List, Option, some, length, arith, one,
  Option-cases, inl, inr,
}
use tee_sqlite.Codec.{key_length}
use tee_sqlite.Codec.Handles.{
  Mode, mode_of_call, Crypto, Handles, free_old_operation, free_old_key, reset,
}

-- What the TEE keeps: the mode, the key and the initial vector of an operation, the key of an object,
-- and the numbers of operations and objects that are allocated.
pub record View (S : Type 0) : Type 0 where
  pub mode : ℕ → S → Option Mode
  pub key : ℕ → S → Option (List ℕ)
  pub vector : ℕ → S → Option (List ℕ)
  pub secret : ℕ → S → Option (List ℕ)
  pub operations : S → ℕ
  pub objects : S → ℕ

-- A call that leaves the modes, and the numbers of operations and objects, as they are.
pub record Leaves {S : Type 0} (v : View S) (s s' : S) : Type 0 where
  pub mode : (op : ℕ) → v.mode op s' ≡ v.mode op s
  pub operations : v.operations s' ≡ v.operations s
  pub objects : v.objects s' ≡ v.objects s

-- What the TEE's internal API documents of these calls.
pub record IsCrypto {S : Type 0} (tee : Crypto S) (v : View S) : Type 0 where
  pub op_mode :
      (m : Mode) (s : S)
      → (tee.allocate_operation m s).0 ≢ 0
      → v.mode (tee.allocate_operation m s).0 (tee.allocate_operation m s).1 ≡ some m
  pub op_counted :
      (m : Mode) (s : S)
      → v.operations (tee.allocate_operation m s).1
        ≡ v.operations s + one (tee.allocate_operation m s).0
  pub op_objects : (m : Mode) (s : S) → v.objects (tee.allocate_operation m s).1 ≡ v.objects s
  pub op_freed :
      (op : ℕ) (s : S)
      → one op ≤ v.operations s
      → v.operations (tee.free_operation op s) + one op ≡ v.operations s
  pub op_freed_objects : (op : ℕ) (s : S) → v.objects (tee.free_operation op s) ≡ v.objects s
  pub object_counted :
      (s : S)
      → v.objects (tee.allocate_transient_object s).1
        ≡ v.objects s + one (tee.allocate_transient_object s).0
  pub object_operations :
      (s : S) → v.operations (tee.allocate_transient_object s).1 ≡ v.operations s
  pub object_mode : (op : ℕ) (s : S) → v.mode op (tee.allocate_transient_object s).1 ≡ v.mode op s
  pub object_freed :
      (o : ℕ) (s : S)
      → one o ≤ v.objects s
      → v.objects (tee.free_transient_object o s) + one o ≡ v.objects s
  pub object_freed_operations :
      (o : ℕ) (s : S) → v.operations (tee.free_transient_object o s) ≡ v.operations s
  pub object_freed_mode :
      (o op : ℕ) (s : S) → v.mode op (tee.free_transient_object o s) ≡ v.mode op s
  pub populated :
      (o : ℕ) (key : List ℕ) (s s' : S)
      → tee.populate_transient_object o key s ≡ some s'
      → length key ≡ key_length
      → v.secret o s' ≡ some key
  pub populated_leaves :
      (o : ℕ) (key : List ℕ) (s s' : S)
      → tee.populate_transient_object o key s ≡ some s'
      → Leaves v s s'
  pub keyed :
      (op o : ℕ) (s s' : S) → tee.set_operation_key op o s ≡ some s' → v.key op s' ≡ v.secret o s
  pub keyed_leaves : (op o : ℕ) (s s' : S) → tee.set_operation_key op o s ≡ some s' → Leaves v s s'
  pub keyed_there : (op o : ℕ) (s s' : S) → tee.set_operation_key op o s ≡ some s' → op ≢ 0
  pub begun :
      (op : ℕ) (iv : List ℕ) (s s' : S)
      → tee.ae_init op iv s ≡ some s'
      → (v.vector op s' ≡ some iv) × (v.key op s' ≡ v.key op s)
  pub begun_leaves :
      (op : ℕ) (iv : List ℕ) (s s' : S) → tee.ae_init op iv s ≡ some s' → Leaves v s s'

-- What reset leaves: an operation with the mode, the key and the initial vector asked for, and as many
-- operations and objects as before, but for those of the codec.
pub record IsReset {S : Type 0} (v : View S) (iv : List ℕ) (h : Handles) (isenc : ℕ)
    (secret : List ℕ) (s : S) (h' : Handles) (s' : S) : Type 0 where
  pub mode : v.mode h'.op_handle s' ≡ some (mode_of_call isenc)
  pub key : v.key h'.op_handle s' ≡ some secret
  pub vector : v.vector h'.op_handle s' ≡ some iv
  pub operations : v.operations s' + one h.op_handle ≡ v.operations s + one h'.op_handle
  pub objects : v.objects s' + one h.key_handle ≡ v.objects s + one h'.key_handle

module _ {S : Type 0} (tee : Crypto S) (v : View S) (laws : IsCrypto tee v) where
  free_old_operation-counts :
      (iv : List ℕ) (h : Handles) (s : S)
      → one h.op_handle ≤ v.operations s
      → (v.operations (free_old_operation tee iv h s) + one h.op_handle ≡ v.operations s)
        × (v.objects (free_old_operation tee iv h s) ≡ v.objects s)
  unfolding free_old_operation
  free_old_operation-counts iv h s le =
      ground (arith, laws.op_freed h.op_handle s, laws.op_freed_objects h.op_handle s)

  free_old_key-counts :
      (iv : List ℕ) (h : Handles) (s : S)
      → one h.key_handle ≤ v.objects s
      → (v.objects (free_old_key tee iv h s) + one h.key_handle ≡ v.objects s)
        × (v.operations (free_old_key tee iv h s) ≡ v.operations s)
        × ((op : ℕ) → v.mode op (free_old_key tee iv h s) ≡ v.mode op s)
  unfolding free_old_key
  free_old_key-counts iv h s le = (
    ground (arith, laws.object_freed h.key_handle s),
    ground (arith, laws.object_freed_operations h.key_handle s),
    λ op. ground (arith, laws.object_freed_mode h.key_handle op s),
  )

  -- The calls behind a reset that returns.
  record Done (iv : List ℕ) (h : Handles) (isenc : ℕ) (key : List ℕ) (s : S) (r : Handles × S)
      : Type 0 where
    s3 : S
    s4 : S
    populated :
        tee.populate_transient_object r.0.key_handle key
          (tee.allocate_transient_object (
            free_old_key tee iv h
              (tee.allocate_operation (mode_of_call isenc) (free_old_operation tee iv h s)).1)).1
        ≡ some s3
    set : tee.set_operation_key r.0.op_handle r.0.key_handle s3 ≡ some s4
    begun : tee.ae_init r.0.op_handle iv s4 ≡ some r.1
    op_handle :
        r.0.op_handle
        ≡ (tee.allocate_operation (mode_of_call isenc) (free_old_operation tee iv h s)).0
    key_handle :
        r.0.key_handle
        ≡ (tee.allocate_transient_object (
            free_old_key tee iv h
              (tee.allocate_operation (mode_of_call isenc) (free_old_operation tee iv h s)).1)).0

  reset-Done :
      (iv : List ℕ) (h : Handles) (isenc : ℕ) (key : List ℕ) (s : S) (r : Handles × S)
      → reset tee iv h isenc key s ≡ some r
      → Done iv h isenc key s r
  unfolding reset
  reset-Done iv h isenc key s r run =
      let op = (tee.allocate_operation (mode_of_call isenc) (free_old_operation tee iv h s)).0 in
      let s1 = (tee.allocate_operation (mode_of_call isenc) (free_old_operation tee iv h s)).1 in
      let o = (tee.allocate_transient_object (free_old_key tee iv h s1)).0 in
      let s2 = (tee.allocate_transient_object (free_old_key tee iv h s1)).1 in
      elim (Option-cases (tee.populate_transient_object o key s2)) [
        | inl e ↦ absurd (ground (arith, run, e))
        | inr a ↦ elim (Option-cases (tee.set_operation_key op o a.0)) [
          | inl e ↦ absurd (ground (arith, run, a.1, e))
          | inr b ↦ elim (Option-cases (tee.ae_init op iv b.0)) [
            | inl e ↦ absurd (ground (arith, run, a.1, b.1, e))
            | inr c ↦
                let it : r ≡ (record { op_handle = op; key_handle = o }, c.0) =
                  ground (arith, run, a.1, b.1, c.1) in
                subst (λ z. Done iv h isenc key s z) (sym it)
                  (record {
                    s3 = a.0;
                    s4 = b.0;
                    populated = a.1;
                    set = b.1;
                    begun = c.1;
                    op_handle = refl;
                    key_handle = refl;
                  })
          ]
        ]
      ]

  -- Where reset returns, for a key of 16 bytes, the operation of the codec has the mode, the key
  -- and the initial vector asked for, and there are as many operations and key objects as before,
  -- but for those of the codec, so none is lost. The TEE is taken to do what its internal API
  -- documents, and the handles of the codec to be those of an operation and an object, or
  -- TEE_HANDLE_NULL.
  pub reset-IsReset :
      (iv : List ℕ) (h : Handles) (isenc : ℕ) (key : List ℕ) (s : S) (h' : Handles) (s' : S)
      → length key ≡ key_length
      → one h.op_handle ≤ v.operations s
      → one h.key_handle ≤ v.objects s
      → reset tee iv h isenc key s ≡ some (h', s')
      → IsReset v iv h isenc key s h' s'
  reset-IsReset iv h isenc key s h' s' whole ops objects run =
      let d = reset-Done iv h isenc key s (h', s') run in
      let s0 = free_old_operation tee iv h s in
      let m = mode_of_call isenc in
      let s1 = (tee.allocate_operation m s0).1 in
      let s10 = free_old_key tee iv h s1 in
      let s2 = (tee.allocate_transient_object s10).1 in
      let freed = free_old_operation-counts iv h s ops in
      let freed_key =
        free_old_key-counts iv h s1 (omega (arith, objects, freed.1, laws.op_objects m s0)) in
      let a = laws.populated_leaves h'.key_handle key s2 d.s3 d.populated in
      let b = laws.keyed_leaves h'.op_handle h'.key_handle d.s3 d.s4 d.set in
      let c = laws.begun_leaves h'.op_handle iv d.s4 s' d.begun in
      let begun = laws.begun h'.op_handle iv d.s4 s' d.begun in
      let there : h'.op_handle ≢ 0 = laws.keyed_there h'.op_handle h'.key_handle d.s3 d.s4 d.set in
      let made : v.mode h'.op_handle s1 ≡ some m =
        ap (λ op. v.mode op s1) d.op_handle ∙ laws.op_mode m s0 (λ e. there (d.op_handle ∙ e)) in
      record {
        mode =
            c.mode h'.op_handle
            ∙ (b.mode h'.op_handle
                ∙ (a.mode h'.op_handle
                    ∙ (laws.object_mode h'.op_handle s10 ∙ (freed_key.2 h'.op_handle ∙ made))));
        key =
            begun.1
            ∙ (laws.keyed h'.op_handle h'.key_handle d.s3 d.s4 d.set
                ∙ laws.populated h'.key_handle key s2 d.s3 d.populated whole);
        vector = begun.0;
        operations = omega (
          arith,
          freed.0,
          freed_key.1,
          laws.op_counted m s0,
          laws.object_operations s10,
          a.operations,
          b.operations,
          c.operations,
          ap one d.op_handle,
        );
        objects = omega (
          arith,
          freed.1,
          freed_key.0,
          laws.op_objects m s0,
          laws.object_counted s10,
          a.objects,
          b.objects,
          c.objects,
          ap one d.key_handle,
        );
      }
