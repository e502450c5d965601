-- ===== src/Localisation/Format/Tables/Switch.antt =====
-- localisation/NSFormat.cpp: the letters of a conversion and the table of types.
use libappupdater.Localisation.Format.Letters.{
  Letter, modifier, doubled, star, dot, digit, size_of_i, conversion, long_decimal, percent,
  written_count, unknown, pointer, float_or_pointer, letter, signed_type, with_longint, no_io,
  float_type,
}
use libappupdater.Localisation.Format.{
  Next, ends, goes_on, go_on, after_digits, position_or_width, known_size, switch, scan,
}
use libappupdater.Localisation.Format.Fields.{
  append_digits, Field, Conversion, Scan, stuck, failed, done, converted, add_star, set_precision,
  edit_flags, no_conversion, add_value, add_pointer,
}
use libappupdater.Prelude.{
  ℕ, zero, suc, ◌-◌, ◌≤◌, Bytes, Bool, true, false, [], ◌∷◌, none, some, length, if◌then◌else◌,
  arith,
}
use libappupdater.Localisation.Format.Tables.Conversions.{
  NoDollar, Ready, Rest, IsFine, IsReady, Ready-Fine, Rest-mono, Rest-tail, append_digits-Left,
  add_star-IsFine, starts_with-Rest, after_digits-IsReady, edit_flags-Ready, no_conversion-Fine,
  known_size-IsReady, position_or_width-IsReady,
}

switch-IsReady :
    (low argno n : ℕ) (first : Bool) (c : ℕ) (s : Bytes) (v : Conversion) (l : Letter)
    → Rest (suc n) (c ∷ s)
    → Ready low argno v
    → IsReady low argno n (switch argno first c s v l)
unfolding switch
switch-IsReady low argno n first c s v (modifier e) r h =
    (Rest-tail n c s r, record { ordered = h.ordered; room = h.room; above = h.above })
switch-IsReady low argno n first c s v (doubled x one two) r h =
    starts_with-Rest n x s
      (λ o. IsReady low argno n (elim o [
        | none ↦ goes_on s (edit_flags one v)
        | some rest ↦ goes_on rest (edit_flags two v)
      ]))
      (Rest-tail n c s r) (Rest-tail n c s r, edit_flags-Ready low argno one v h)
      (λ rest q. (q, edit_flags-Ready low argno two v h))
switch-IsReady low argno n first c s v star r h =
    add_star-IsFine low argno n true s v (Rest-tail n c s r) h
switch-IsReady low argno n first c s v dot r h =
    starts_with-Rest n b'*' s
      (λ o. IsReady low argno n (elim o [
        | some rest ↦ go_on (add_star argno false rest v)
        | none ↦ after_digits v (λ k rest. goes_on rest (set_precision k v)) (append_digits 0 s)
      ]))
      (Rest-tail n c s r)
      (after_digits-IsReady low argno n v (λ k rest. goes_on rest (set_precision k v))
        (append_digits 0 s) h (append_digits-Left n 0 s (Rest-tail n c s r))
        (λ k rest q. (q, record { ordered = h.ordered; room = h.room; above = h.above })))
      (λ rest q. add_star-IsFine low argno n false rest v q h)
switch-IsReady low argno n first c s v digit r h =
    after_digits-IsReady low argno n v (position_or_width v) (append_digits (c - b'0') s) h
      (append_digits-Left n (c - b'0') s (Rest-tail n c s r))
      (λ k rest q. position_or_width-IsReady low argno n v k rest h q)
switch-IsReady low argno n first c s v size_of_i r h =
    after_digits-IsReady low argno n v (known_size s v) (append_digits 0 s) h
      (append_digits-Left n 0 s (Rest-tail n c s r))
      (λ k rest q. known_size-IsReady low argno n s rest v k (Rest-tail n c s r) q h)
switch-IsReady low argno n first c s v (conversion pre type io post) r h = (
  Rest-mono n (suc n) s (omega arith) (Rest-tail n c s r),
  record {
    ordered = (omega arith, h.ordered);
    bounded = omega (arith, h.room);
    above = omega (arith, h.above);
  },
)
switch-IsReady low argno n first c s v long_decimal r h =
    elim v.field.flags.isz
      as (λ b. IsReady low argno n (
        if b
        then ends (converted s (no_conversion v))
        else ends (
            converted s (
              add_value (signed_type (Field.flags (Conversion.field (edit_flags with_longint v)))) c
                (record no_io { dec = true }) (λ f. f) (edit_flags with_longint v))))) [
                  | true ↦ (
                    Rest-mono n (suc n) s (omega arith) (Rest-tail n c s r),
                    no_conversion-Fine low argno v h,
                  )
                  | false ↦ (
                    Rest-mono n (suc n) s (omega arith) (Rest-tail n c s r),
                    record {
                      ordered = (omega arith, h.ordered);
                      bounded = omega (arith, h.room);
                      above = omega (arith, h.above);
                    },
                  )
                ]
switch-IsReady low argno n true c s v percent r h = (
  Rest-mono n (suc n) s (omega arith) (Rest-tail n c s r),
  record { ordered = h.ordered; bounded = omega (arith, h.room); above = omega (arith, h.above) },
)
switch-IsReady low argno n false c s v percent r h = (
  r,
  record { ordered = h.ordered; bounded = omega (arith, h.room); above = omega (arith, h.above) },
)
switch-IsReady low argno n first c s v written_count r h = Ready-Fine low argno v h
switch-IsReady low argno n first c s v unknown r h = (
  Rest-mono n (suc n) s (omega arith) (Rest-tail n c s r),
  record { ordered = h.ordered; bounded = omega (arith, h.room); above = omega (arith, h.above) },
)
switch-IsReady low argno n first c s v (pointer io) r h = (
  Rest-mono n (suc n) s (omega arith) (Rest-tail n c s r),
  record {
    ordered = (omega arith, h.ordered);
    bounded = omega (arith, h.room);
    above = omega (arith, h.above);
  },
)
switch-IsReady low argno n first c s v (float_or_pointer io) r h =
    starts_with-Rest n b'p' s
      (λ o. IsReady low argno n (elim o [
        | some rest ↦ ends (converted rest (add_pointer io v))
        | none ↦ ends (
            converted s (
              add_value
                (float_type
                  (Field.flags (Conversion.field (edit_flags (λ f. record f { fpt = true }) v))))
                c
                (if io.uppercase then record io { fixed = true } else record no_io { fixed = true })
                (λ f. f) (edit_flags (λ f. record f { fpt = true }) v)))
      ]))
      (Rest-tail n c s r)
      (
        Rest-mono n (suc n) s (omega arith) (Rest-tail n c s r),
        record {
          ordered = (omega arith, h.ordered);
          bounded = omega (arith, h.room);
          above = omega (arith, h.above);
        },
      )
      (λ rest q. (
        Rest-mono n (suc n) rest (omega arith) q,
        record {
          ordered = (omega arith, h.ordered);
          bounded = omega (arith, h.room);
          above = omega (arith, h.above);
        },
      ))

IsFine-mono : (low argno m n : ℕ) (r : Scan) → m ≤ n → IsFine low argno m r → IsFine low argno n r
IsFine-mono low argno m n stuck le h = absurd h
IsFine-mono low argno m n (failed v) le h = h
IsFine-mono low argno m n (done v) le h = h
IsFine-mono low argno m n (converted s v) le h = (Rest-mono m n s le h.0, h.1)

pub scan-IsFine :
    (low argno fuel : ℕ) (first : Bool) (s : Bytes) (v : Conversion)
    → length s ≤ fuel
    → NoDollar s
    → Ready low argno v
    → IsFine low argno (length s) (scan argno fuel first s v)
unfolding scan
scan-IsFine low argno fuel first [] v le d h =
    (record { short = omega arith; plain = tt }, no_conversion-Fine low argno v h)
scan-IsFine low argno zero first (c ∷ s) v le d h = absurd (omega (arith, le))
scan-IsFine low argno (suc fuel) first (c ∷ s) v le d h =
    go (scan-IsFine low argno fuel false) (switch argno first c s v (letter c)) (
      switch-IsReady low argno (length s) first c s v (letter c)
        record { short = omega arith; plain = d } h)
  where
    go :
        ((t : Bytes) (w : Conversion)
          → length t ≤ fuel
          → NoDollar t
          → Ready low argno w
          → IsFine low argno (length t) (scan argno fuel false t w))
        → (r : Next) → IsReady low argno (length s) r
        → IsFine low argno
            (length (c ∷ s))
            (elim r [ ends q ↦ q | goes_on t w ↦ scan argno fuel false t w ])
    go ih (ends q) k = k
    go ih (goes_on t w) (q, k) =
        IsFine-mono low argno (length t) (suc (length s)) (scan argno fuel false t w)
          (omega (arith, q.short)) (ih t w (omega (arith, le, q.short)) q.plain k)
