-- ===== src/Localisation/Format/Letters.antt =====
-- localisation/NSFormat.cpp: the letters of a conversion, with the flags and the types of
-- arguments. The switch of `parse_format` is the function from a letter to what is done at it.
-- `long` has 32 bits, and the build options are those of localisation/NSFormat.h.
use libappupdater.Prelude.{ℕ, Bool, true, false, ◌&&◌, ◌||◌, leb, ◌==◌, if◌then◌else◌}

pub data ArgType : Type 0 where
  t_short t_u_short t_int t_u_int t_long t_u_long t_llong t_u_llong : ArgType
  tp_char tp_void t_ptrint t_sizeint t_ssizeint t_maxint t_maxuint t_char t_u_char : ArgType
  t_double t_long_double t_wint tp_wchar tp_object : ArgType

pub record Flags : Type 0 where
  pub alt : Bool
  pub ladjust : Bool
  pub longdbl : Bool
  pub longint : Bool
  pub llongint : Bool
  pub shortint : Bool
  pub zeropad : Bool
  pub fpt : Bool
  pub ptrint : Bool
  pub sizeint : Bool
  pub charint : Bool
  pub maxint : Bool
  pub plussign : Bool
  pub spacesign : Bool
  pub isz : Bool

abbrev pub no_flags : Flags
no_flags = record {
  alt = false;
  ladjust = false;
  longdbl = false;
  longint = false;
  llongint = false;
  shortint = false;
  zeropad = false;
  fpt = false;
  ptrint = false;
  sizeint = false;
  charint = false;
  maxint = false;
  plussign = false;
  spacesign = false;
  isz = false;
}

-- The bits of `std::ios` that a conversion sets.
pub record IoFlags : Type 0 where
  pub dec : Bool
  pub oct : Bool
  pub hex : Bool
  pub fixed : Bool
  pub scientific : Bool
  pub uppercase : Bool

abbrev pub no_io : IoFlags
no_io = record {
  dec = false;
  oct = false;
  hex = false;
  fixed = false;
  scientific = false;
  uppercase = false;
}

-- `ADDSARG` and `ADDUARG`
abbrev pub signed_type : Flags → ArgType
signed_type f =
    if f.maxint
    then t_maxint
    else if f.ptrint
    then t_ptrint
    else if f.sizeint
    then t_ssizeint
    else if f.llongint
    then t_llong
    else if f.longint
    then t_long
    else if f.shortint
    then t_short
    else if f.charint
    then t_char
    else t_int

abbrev pub unsigned_type : Flags → ArgType
unsigned_type f =
    if f.maxint
    then t_maxuint
    else if f.ptrint
    then t_ptrint
    else if f.sizeint
    then t_sizeint
    else if f.llongint
    then t_u_llong
    else if f.longint
    then t_u_long
    else if f.shortint
    then t_u_short
    else if f.charint
    then t_u_char
    else t_u_int

abbrev pub float_type : Flags → ArgType
float_type f = if f.longdbl then t_long_double else t_double

-- `flags &= ~(PLUSSIGN | SPACESIGN)`
abbrev pub no_sign : Flags → Flags
no_sign f = record f { plussign = false; spacesign = false }

abbrev pub with_longint : Flags → Flags
with_longint f = record f { longint = true }

abbrev pub space_flag : Flags → Flags
space_flag f = if f.plussign then f else record f { spacesign = true }

-- What the switch does at a letter: a flag, one of two flags if the letter may stand twice, a
-- number or a star, or a conversion, with the flags that it sets first, the type of its argument,
-- its bits, and what becomes of the flags.
pub data Letter : Type 0 where
  modifier : (Flags → Flags) → Letter
  doubled : ℕ → (Flags → Flags) → (Flags → Flags) → Letter
  star dot digit size_of_i : Letter
  conversion : (Flags → Flags) → (Flags → ArgType) → IoFlags → (Flags → Flags) → Letter
  long_decimal percent written_count unknown : Letter
  pointer float_or_pointer : IoFlags → Letter

abbrev same : Flags → Flags
same f = f

abbrev float : IoFlags → Letter
float io = conversion (λ f. record f { fpt = true }) float_type io same

-- The flags and modifiers.
unfoldable pub modifier_letter : ℕ → Letter → Letter
modifier_letter c otherwise =
    if c == b' '
    then modifier space_flag
    else if c == b'#'
    then modifier (λ f. record f { alt = true })
    else if c == 39
    then modifier same
    else if c == b'-'
    then modifier (λ f. record f { ladjust = true })
    else if c == b'+'
    then modifier (λ f. record f { spacesign = false; plussign = true })
    else if c == b'0'
    then modifier (λ f. record f { zeropad = true })
    else if c == b'h'
    then doubled c (λ f. record f { shortint = true }) (λ f. record f { charint = true })
    else if c == b'j'
    then modifier (λ f. record f { maxint = true })
    else if c == b'l'
    then doubled c with_longint (λ f. record f { llongint = true })
    else if c == b'q'
    then modifier (λ f. record f { llongint = true })
    else if c == b'L'
    then modifier (λ f. record f { longdbl = true })
    else if c == b't'
    then modifier (λ f. record f { ptrint = true })
    else if c == b'z'
    then modifier (λ f. record f { sizeint = true })
    else otherwise

-- The conversions.
unfoldable pub conversion_letter : ℕ → Letter
conversion_letter c =
    if c == b'@'
    then conversion same (λ f. tp_object) no_io same
    else if c == b'C'
    then conversion with_longint (λ f. t_wint) no_io no_sign
    else if c == b'c'
    then conversion same (λ f. if f.longint then t_wint else t_int) no_io no_sign
    else if c == b'D'
    then long_decimal
    else if c == b'd' || c == b'i'
    then conversion same signed_type (record no_io { dec = true }) same
    else if c == b'U'
    then conversion with_longint unsigned_type (record no_io { dec = true }) no_sign
    else if c == b'u'
    then conversion same unsigned_type (record no_io { dec = true }) no_sign
    else if c == b'A'
    then float (record no_io { fixed = true; scientific = true; uppercase = true })
    else if c == b'a'
    then float (record no_io { fixed = true; scientific = true })
    else if c == b'E'
    then float (record no_io { scientific = true; uppercase = true })
    else if c == b'e'
    then float (record no_io { scientific = true })
    else if c == b'F'
    then float_or_pointer (record no_io { uppercase = true })
    else if c == b'f'
    then float_or_pointer no_io
    else if c == b'G'
    then float (record no_io { uppercase = true })
    else if c == b'g'
    then float no_io
    else if c == b'n'
    then written_count
    else if c == b'O'
    then conversion with_longint unsigned_type (record no_io { oct = true }) same
    else if c == b'o'
    then conversion same unsigned_type (record no_io { oct = true }) same
    else if c == b'S'
    then conversion with_longint (λ f. tp_wchar) no_io (λ f. record (no_sign f) { zeropad = false })
    else if c == b's'
    then conversion same (λ f. if f.longint then tp_wchar else tp_char) no_io
        (λ f. record (no_sign f) { zeropad = false })
    else if c == b'X'
    then conversion same unsigned_type (record no_io { hex = true; uppercase = true }) no_sign
    else if c == b'x'
    then conversion same unsigned_type (record no_io { hex = true }) no_sign
    else if c == b'p'
    then pointer no_io
    else if c == b'%'
    then percent
    else unknown

abbrev pub letter : ℕ → Letter
letter c =
    if c == b'*'
    then star
    else if c == b'.'
    then dot
    else if leb b'1' c && leb c b'9'
    then digit
    else if c == b'I'
    then size_of_i
    else modifier_letter c (conversion_letter c)
