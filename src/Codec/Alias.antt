-- ===== src/Codec/Alias.antt =====
-- Two calls of CodecEncrypt of optee_examples/tee_sqilte/ta/codec.c whose tags stand at one address.
use tee_sqlite.Prelude.{
  ℕ, suc, ◌-◌, ◌^◌, ◌<◌, ◌≡◌, ◌≢◌, sym, ap, ◌∙◌, Bool, List, some, some_inj, ◌==◌, if◌then◌else◌,
  arith,
}
use tee_sqlite.HashMap.Growth.{view}
use tee_sqlite.Codec.{Codec, Ae, Tags}
use tee_sqlite.Codec.Pages.{Frame, codec_encrypt}
use tee_sqlite.Codec.Sealed.{memory_there, encrypted}
use tee_sqlite.Codec.RoundTrip.{IsReady, IsNew, codec_encrypt_other}

-- Where two pages other than 1 are encrypted by calls whose `p_mac` is at the same address, the map
-- gives the same address for both, and there is the tag of the second: that of the first is lost.
codec_encrypt-codec_encrypt :
    (ae : Ae) (over : ℕ → ℕ → Bool) (c : Codec) (use_write_key : Bool) (f g : Frame)
    (page page' : ℕ) (bytes bytes' : List ℕ) (t : Tags)
    → IsReady f page t
    → IsNew over page t
    → t.map.size < 2 ^ 31
    → page ≢ 1
    → {enc : List ℕ} {t1 : Tags}
    → codec_encrypt ae (memory_there over) c f page bytes use_write_key t ≡ some (enc, t1)
    → IsReady g page' t1
    → IsNew over page' t1
    → t1.map.size < 2 ^ 31
    → page' ≢ 1
    → g.mac_at ≡ f.mac_at
    → {enc' : List ℕ} {t2 : Tags}
    → codec_encrypt ae (memory_there over) c g page' bytes' use_write_key t1 ≡ some (enc', t2)
    → (view t2.map page ≡ f.mac_at)
      × (view t2.map page' ≡ f.mac_at)
      × (t2.bytes f.mac_at ≡ (encrypted ae c use_write_key bytes').2)
codec_encrypt-codec_encrypt ae over c use_write_key f g page page' bytes bytes' t ready fresh small
      first {enc} {t1} run ready' fresh' small' first' same {enc'} {t2} run' =
    let e = codec_encrypt_other ae over c use_write_key f page bytes t ready fresh small first in
    let e' =
      codec_encrypt_other ae over c use_write_key g page' bytes' t1 ready' fresh' small' first' in
    let tags : t1 ≡ e.tags = ap (λ (p : List ℕ × Tags). p.1) (some_inj (sym run ∙ e.run)) in
    let tags' : t2 ≡ e'.tags = ap (λ (p : List ℕ × Tags). p.1) (some_inj (sym run' ∙ e'.run)) in
    let pred : suc (page - 1) ≡ page = omega (arith, ready.positive) in
    let pred' : suc (page' - 1) ≡ page' = omega (arith, ready'.positive) in
    let known : view t1.map page ≡ f.mac_at =
      rw (tags) (ap (view e.tags.map) (sym pred) ∙ (e.views (page - 1) ∙ ground (arith, pred))) in
    let kept : view t2.map page ≡ (if page' == page then g.mac_at else view t1.map page) =
      rw (tags')
        (ap (view e'.tags.map) (sym pred) ∙ (e'.views (page - 1) ∙ ground (arith, pred))) in
    let new : view t2.map page' ≡ g.mac_at =
      rw (tags')
        (ap (view e'.tags.map) (sym pred') ∙ (e'.views (page' - 1) ∙ ground (arith, pred'))) in
    (
      ground (arith, kept, known, same),
      new ∙ same,
      ap (λ (t : Tags). t.bytes f.mac_at) tags' ∙ (ap e'.tags.bytes (sym same) ∙ e'.tag),
    )
