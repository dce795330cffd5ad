-- ===== src/Tests/Wires.antt =====
-- shared/wire.h and shared/protocol.h at concrete inputs.
use dicker.Base.{◌≡◌, refl, [], ◌∷◌}
use dicker.Wire.{write_u16_le}

u16_bytes : write_u16_le 0x1234 ≡ 0x34 ∷ 0x12 ∷ []
unfolding write_u16_le
u16_bytes = refl
