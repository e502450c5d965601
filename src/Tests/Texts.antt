-- ===== src/Tests/Texts.antt =====
-- Base64 and hexadecimal texts: util/Base64.h and util/Hex.h.
use libappupdater.Prelude.{Bytes, All, some, [], ◌∷◌, ◌≡◌, refl, arith, codes}
use libappupdater.Util.Base64.{encode_text, decode}
use libappupdater.Util.Base64.RoundTrip.{decode-encode_text}
use libappupdater.Util.Hex.{to_string}
use libappupdater.Util.Tables.{IsByte}

abbrev sample : Bytes
sample = 0 ∷ 255 ∷ 16 ∷ 7 ∷ []

sample-IsByte : All IsByte sample
sample-IsByte = (omega arith, (omega arith, (omega arith, (omega arith, tt))))

decode-encode_text_example : decode (encode_text sample) 4 ≡ some sample
decode-encode_text_example = decode-encode_text sample 4 sample-IsByte (omega arith) (omega arith)

sample-to_string : to_string sample ≡ codes "00ff1007"
unfolding to_string
sample-to_string = refl
