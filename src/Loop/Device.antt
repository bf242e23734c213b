-- ===== src/Loop/Device.antt =====
-- The device of the TEE: open_dev and get_dev_fd of optee_client/tee-supplicant/tee_supplicant.c.
use tee_sqlite.Prelude.{
  ℕ, zero, suc, ◌+◌, ◌^◌, ◌<◌, ◌≡◌, refl, ap, ◌∙◌, true, false, ◌==◌, leb, List, [], ◌∷◌, Option,
  none, some, if◌then◌else◌, arith, Bool-cases, Option-cases, inl, inr,
}

-- open with O_RDWR, the request TEE_IOC_VERSION (`none` is a failure, otherwise impl_id and
-- gen_caps), close, and TEE_IMPL_ID_OPTEE of Linux's tee.h.
pub record Devices (W : Type 0) : Type 0 where
  pub open_rdwr : List ℕ → W → ℕ × W
  pub version : ℕ → W → Option (ℕ × ℕ) × W
  pub close : ℕ → W → W
  pub impl_id_optee : ℕ

abbrev pub max_dev_seq : ℕ
max_dev_seq = 10

-- "/dev/teepriv%zu" for a number of one digit.
unfoldable pub device_name : ℕ → List ℕ
device_name n = 47 ∷ 100 ∷ 101 ∷ 118 ∷ 47 ∷ 116 ∷ 101 ∷ 101 ∷ 112 ∷ 114 ∷ 105 ∷ 118 ∷ (48 + n) ∷ []

module _ {W : Type 0} (dev : Devices W) where
  -- The descriptor with `gen_caps`; `none` is -1.
  unfoldable pub open_dev : List ℕ → W → Option (ℕ × ℕ) × W
  open_dev name w =
      let (fd, w1) = dev.open_rdwr name w in
      if leb (2 ^ 31) fd
      then (none, w1)
      else (let (answer, w2) = dev.version fd w1 in
          elim answer [
            | none ↦ (none, dev.close fd w2)
            | some v ↦
                if v.0 == dev.impl_id_optee then (some (fd, v.1), w2) else (none, dev.close fd w2)
          ])

  -- The loop of get_dev_fd from `n` on, of which `left` are left.
  unfoldable pub search_devices : ℕ → ℕ → W → Option (ℕ × ℕ) × W
  unfolding open_dev device_name
  search_devices n zero w = (none, w)
  search_devices n (suc left) w =
      let (found, w1) = open_dev (device_name n) w in
      let rest = search_devices (n + 1) left w1 in
      elim found [ some fd ↦ (some fd, w1) | none ↦ rest ]

  unfoldable pub get_dev_fd : W → Option (ℕ × ℕ) × W
  unfolding search_devices
  get_dev_fd w = search_devices 0 max_dev_seq w

-- What POSIX says of the number of descriptors that are open.
pub record CountsOpen {W : Type 0} (dev : Devices W) (held : W → ℕ) : Type 0 where
  pub opens :
      (name : List ℕ) (w : W)
      → leb (2 ^ 31) (dev.open_rdwr name w).0 ≡ false
      → held (dev.open_rdwr name w).1 ≡ suc (held w)
  pub fails :
      (name : List ℕ) (w : W)
      → leb (2 ^ 31) (dev.open_rdwr name w).0 ≡ true
      → held (dev.open_rdwr name w).1 ≡ held w
  pub asks : (fd : ℕ) (w : W) → held (dev.version fd w).1 ≡ held w
  pub closes : (fd : ℕ) (w : W) → 0 < held w → suc (held (dev.close fd w)) ≡ held w

-- A descriptor that is returned is open, and no other is left open.
abbrev pub Balance : {W : Type 0} → (W → ℕ) → W → Option (ℕ × ℕ) × W → Type 0
Balance held w (none, w') = held w' ≡ held w
Balance held w (some fd, w') = held w' ≡ suc (held w)

module _ {W : Type 0} (dev : Devices W) (held : W → ℕ) (counts : CountsOpen dev held) where
  open_dev-Balance : (name : List ℕ) (w : W) → Balance held w (open_dev dev name w)
  unfolding open_dev
  open_dev-Balance name w =
      let fd = (dev.open_rdwr name w).0 in
      let w1 = (dev.open_rdwr name w).1 in
      let w2 = (dev.version fd w1).1 in
      elim (Bool-cases (leb (2 ^ 31) fd)) [
        | inl failed ↦ rw (failed, if◌then◌else◌) (counts.fails name w failed)
        | inr there ↦
            let back : held (dev.close fd w2) ≡ held w =
              let one = counts.opens name w there in
              let asked = counts.asks fd w1 in
              omega (arith, one, asked, counts.closes fd w2 (omega (arith, one, asked))) in
            rw (there, if◌then◌else◌)
              (elim (Option-cases (dev.version fd w1).0) [
                | inl no_answer ↦ rw (no_answer) back
                | inr (v, answer) ↦ elim (Bool-cases (v.0 == dev.impl_id_optee)) [
                  | inl optee ↦
                      rw (answer, optee, if◌then◌else◌)
                        (counts.asks fd w1 ∙ counts.opens name w there)
                  | inr another ↦ rw (answer, another, if◌then◌else◌) back
                ]
              ])
      ]

  Balance-transport :
      (w w1 : W) (r : Option (ℕ × ℕ) × W) → held w1 ≡ held w → Balance held w1 r → Balance held w r
  Balance-transport w w1 (none, w2) same b = b ∙ same
  Balance-transport w w1 (some fd, w2) same b = b ∙ ap suc same

  or_search :
      (n left : ℕ) (w : W) (r : Option (ℕ × ℕ) × W)
      → Balance held w r
      → ((w1 : W) → Balance held w1 (search_devices dev n left w1))
      → Balance held w
          (elim (r.0) [ some fd ↦ (some fd, r.1) | none ↦ search_devices dev n left r.1 ])
  or_search n left w (none, w1) b later =
      Balance-transport w w1 (search_devices dev n left w1) b (later w1)
  or_search n left w (some fd, w1) b later = b

  search_devices-Balance : (n left : ℕ) (w : W) → Balance held w (search_devices dev n left w)
  unfolding search_devices
  search_devices-Balance n zero w = refl
  search_devices-Balance n (suc left) w =
      or_search (n + 1) left w (open_dev dev (device_name n) w) (open_dev-Balance (device_name n) w)
        (search_devices-Balance (n + 1) left)

  -- get_dev_fd leaves no descriptor open but the one that it returns, whichever of the ten devices
  -- opens, answers or is another's.
  pub get_dev_fd-Balance : (w : W) → Balance held w (get_dev_fd dev w)
  unfolding get_dev_fd
  get_dev_fd-Balance w = search_devices-Balance 0 max_dev_seq w
