-- ===== src/Util/Hex.antt =====
-- util/Hex.h: the class `Hex`.
pub mod Injective
use libappupdater.Prelude.{ℕ, ◌/◌, ◌%◌, Bytes, [], ◌∷◌, codes}
use libappupdater.Util.Tables.{byte_at}

abbrev pub digits : Bytes
digits = codes "0123456789abcdef"

-- `to_string`
unfoldable pub to_string : Bytes → Bytes
to_string [] = []
to_string (c ∷ s) = byte_at digits (c / 16) ∷ byte_at digits (c % 16) ∷ to_string s
