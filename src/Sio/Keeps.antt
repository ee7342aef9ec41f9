-- ===== src/Sio/Keeps.antt =====
-- motherboard/superio.c: properties of the state that the port accesses keep.
pub mod Chip
use libhwsense.Prelude.{ℕ, ◌+◌, ◌*◌, ◌/◌, ◌%◌, Bool, true, false, Option, none, some, if◌then◌else◌}
use libhwsense.Sio.Port.{
  World, M, ◌>>=◌, ◌>>◌, pure, both, or_zero, sio_read_port, sio_write_port, sio_enter, sio_exit,
  sio_read_reg, sio_write_reg, unlock,
}

-- `P` holds after `m` if it holds before.
abbrev pub Keeps : {S A : Type 0} → (World S → Type 0) → M S A → Type 0
Keeps {S} P m = (w : World S) → P w → P (m w).1

module _ {S A B : Type 0} (P : World S → Type 0) where
  pub Keeps-bind :
      (m : M S A) (f : A → M S B) → Keeps P m → ((a : A) → Keeps P (f a)) → Keeps P (m >>= f)
  unfolding ◌>>=◌
  Keeps-bind m f hm hf w h = hf (m w).0 (m w).1 (hm w h)

  pub Keeps-then : (m : M S A) (n : M S B) → Keeps P m → Keeps P n → Keeps P (m >> n)
  unfolding ◌>>◌
  Keeps-then m n hm hn w h = hn (m w).1 (hm w h)

module _ {S A : Type 0} (P : World S → Type 0) where
  pub Keeps-pure : (a : A) → Keeps P (pure {S = S} a)
  unfolding pure
  Keeps-pure a w h = h

  pub Keeps-if : (b : Bool) (m n : M S A) → Keeps P m → Keeps P n → Keeps P (if b then m else n)
  Keeps-if true m n hm hn = hm
  Keeps-if false m n hm hn = hn

pub Keeps-both :
    {S : Type 0} (P : World S → Type 0) (m n : M S Bool)
    → Keeps P m
    → Keeps P n
    → Keeps P (both m n)
unfolding both
Keeps-both P m n hm hn =
    Keeps-bind P m _ hm (λ ok. Keeps-if P ok n (pure false) hn (Keeps-pure P false))

module _ {S : Type 0} (read_port : S → ℕ → Option ℕ × S) (write_port : S → ℕ → ℕ → Bool × S)
    (P : World S → Type 0) (reads : (port : ℕ) → Keeps P (sio_read_port read_port write_port port))
    (writes : (port value : ℕ) → Keeps P (sio_write_port read_port write_port port value)) where
  pub sio_enter-Keeps : (addr : ℕ) → Keeps P (sio_enter read_port write_port addr)
  unfolding sio_enter
  sio_enter-Keeps addr = Keeps-both P _ _ (writes addr 0x87) (writes addr 0x87)

  pub sio_exit-Keeps : (addr : ℕ) → Keeps P (sio_exit read_port write_port addr)
  unfolding sio_exit
  sio_exit-Keeps addr = writes addr 0xaa

  pub sio_read_reg-Keeps :
      (addr data_ reg : ℕ) → Keeps P (sio_read_reg read_port write_port addr data_ reg)
  unfolding sio_read_reg
  sio_read_reg-Keeps addr data_ reg =
      Keeps-bind P _ _ (writes addr reg) (λ ok. Keeps-if P ok _ _ (reads data_) (Keeps-pure P none))

  pub sio_write_reg-Keeps :
      (addr data_ reg value : ℕ) → Keeps P (sio_write_reg read_port write_port addr data_ reg value)
  unfolding sio_write_reg
  sio_write_reg-Keeps addr data_ reg value = Keeps-both P _ _ (writes addr reg) (writes data_ value)

  pub unlock-Keeps : (addr data_ : ℕ) → Keeps P (unlock read_port write_port addr data_)
  unfolding unlock
  unlock-Keeps addr data_ = Keeps-bind P _ _ (sio_enter-Keeps addr) λ entered.
      Keeps-if P entered _ _
        (Keeps-bind P _ _ (sio_read_reg-Keeps addr data_ 0x28) λ lock.
          Keeps-then P _ _ (sio_write_reg-Keeps addr data_ 0x28 _)
            (Keeps-then P _ _ (sio_exit-Keeps addr) (Keeps-pure P tt)))
        (Keeps-pure P tt)
