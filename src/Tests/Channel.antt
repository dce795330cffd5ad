-- ===== src/Tests/Channel.antt =====
-- server/byte_channel.cxx at concrete inputs.
use dicker.Base.{refl, List, [], ◌∷◌, false}
use dicker.ByteChannel.{ByteChannel, new_channel, Event, pushed, closing, read_exact}
use dicker.ByteChannel.Invariant.{IsValid}
use dicker.ByteChannel.Stream.{Reads, stream, closes, read_exact_lem}

abbrev fresh : ByteChannel
fresh = new_channel 4

fresh_ok : IsValid fresh
fresh_ok = record { blocks_ok = refl; counted = refl }

abbrev later : List Event
later = pushed (1 ∷ 2 ∷ []) ∷ pushed (3 ∷ []) ∷ closing ∷ []

read_exact_lem_example :
    Reads [] 3 (stream fresh later) (closes false later) (read_exact fresh later 3)
read_exact_lem_example = read_exact_lem fresh later 3 fresh_ok
