-- ===== src/Printf/Format/Output.antt =====
-- kernel/printf.c: what printf prints of a format that is put together from pieces, read back.
use kali.Prelude.{
  ℕ, ◌+◌, ◌-◌, ◌*◌, ◌/◌, ◌%◌, ◌^◌, ◌≡◌, ◌<◌, refl, subst, ap, ap₂, ◌∙◌, true, false, List, [], ◌∷◌,
  ◌++◌, ◌==◌, ltb, if◌then◌else◌, arith, Bool-cases, inl, inr, some,
}
use kali.Printf.Numbers.{
  IsNumber, below_zero, not_below, HasRoom, decimal_room, negative_room, hex_room, printint_lem,
}
use kali.Printf.Format.{sign_extend, followed_by, printptr, printf, null_text}
use kali.Printf.Format.Pointers.{IsAddress, printptr-IsAddress}
use kali.Printf.Format.Pieces.{
  Piece, plain, numeric, address, words, sign, Width, int, long, long_long, Radix, decimal,
  unsigned, hex, in_radix, widened, output, spelled, AreSpelled, printf-output,
}

-- The output of pieces with the arguments from `n` on, where `IsText` says how a number looks.
pub data IsOutput (IsText : Width → Radix → (word : ℕ) → List ℕ → Type 0) (text : ℕ → List ℕ)
    (args : ℕ → ℕ) : (n : ℕ) → List Piece → List ℕ → Type 0 where
  no_piece : {n : ℕ} → IsOutput IsText text args n [] []
  put_plain :
      {n c : ℕ} {ps : List Piece} {cs : List ℕ}
      → IsOutput IsText text args n ps cs
      → IsOutput IsText text args n (plain c ∷ ps) (c ∷ cs)
  put_number :
      {n : ℕ} {w : Width} {r : Radix} {ps : List Piece} {ds cs : List ℕ}
      → IsText w r (args n) ds
      → IsOutput IsText text args (n + 1) ps cs
      → IsOutput IsText text args n (numeric w r ∷ ps) (ds ++ cs)
  put_address :
      {n : ℕ} {ps : List Piece} {ds cs : List ℕ}
      → IsAddress (args n) ds
      → IsOutput IsText text args (n + 1) ps cs
      → IsOutput IsText text args n (address ∷ ps) (ds ++ cs)
  put_words :
      {n : ℕ} {ps : List Piece} {cs : List ℕ}
      → IsOutput IsText text args (n + 1) ps cs
      → IsOutput IsText text args n
          (words ∷ ps)
          ((if args n == 0 then null_text else text (args n)) ++ cs)
  put_sign :
      {n : ℕ} {ps : List Piece} {cs : List ℕ}
      → IsOutput IsText text args n ps cs
      → IsOutput IsText text args n (sign ∷ ps) (b'%' ∷ cs)

-- An `int` in 64 bits: the upper 32 are copies of its sign.
abbrev pub extended : (word : ℕ) → ℕ
extended word = word % 2 ^ 32 + word / 2 ^ 31 % 2 * (2 ^ 64 - 2 ^ 32)

-- How the kernel's printf prints a number.
abbrev pub IsKernelText : Width → Radix → (word : ℕ) → List ℕ → Type 0
IsKernelText int decimal word cs = IsNumber (2 ^ 31) 10 (word % 2 ^ 32) true cs
IsKernelText int unsigned word cs = IsNumber (2 ^ 63) 10 (extended word) false cs
IsKernelText int hex word cs = IsNumber (2 ^ 63) 16 (extended word) false cs
IsKernelText long decimal word cs = IsNumber (2 ^ 63) 10 word true cs
IsKernelText long unsigned word cs = IsNumber (2 ^ 63) 10 word false cs
IsKernelText long hex word cs = IsNumber (2 ^ 63) 16 word false cs
IsKernelText long_long decimal word cs = IsNumber (2 ^ 63) 10 word true cs
IsKernelText long_long unsigned word cs = IsNumber (2 ^ 63) 10 word false cs
IsKernelText long_long hex word cs = IsNumber (2 ^ 63) 16 word false cs

-- The numbers that printint has room for.
pub data HasWordRoom (word : ℕ) : Width → Radix → Type 0 where
  int_decimal : HasWordRoom word int decimal
  int_unsigned : word % 2 ^ 32 < 2 ^ 31 → HasWordRoom word int unsigned
  int_hex : HasWordRoom word int hex
  long_decimal : HasRoom word 10 true → HasWordRoom word long decimal
  long_unsigned : HasRoom word 10 false → HasWordRoom word long unsigned
  long_hex : HasRoom word 16 false → HasWordRoom word long hex
  long_long_decimal : HasRoom word 10 true → HasWordRoom word long_long decimal
  long_long_unsigned : HasRoom word 10 false → HasWordRoom word long_long unsigned
  long_long_hex : HasRoom word 16 false → HasWordRoom word long_long hex

pub data HaveRoom (args : ℕ → ℕ) : (n : ℕ) → List Piece → Type 0 where
  no_room : {n : ℕ} → HaveRoom args n []
  plain_room : {n c : ℕ} {ps : List Piece} → HaveRoom args n ps → HaveRoom args n (plain c ∷ ps)
  number_room :
      {n : ℕ} {w : Width} {r : Radix} {ps : List Piece}
      → HasWordRoom (args n) w r
      → HaveRoom args (n + 1) ps
      → HaveRoom args n (numeric w r ∷ ps)
  address_room :
      {n : ℕ} {ps : List Piece}
      → args n < 2 ^ 64
      → HaveRoom args (n + 1) ps
      → HaveRoom args n (address ∷ ps)
  words_room : {n : ℕ} {ps : List Piece} → HaveRoom args (n + 1) ps → HaveRoom args n (words ∷ ps)
  sign_room : {n : ℕ} {ps : List Piece} → HaveRoom args n ps → HaveRoom args n (sign ∷ ps)

sign_extend_lem : (word : ℕ) → sign_extend word ≡ extended word
sign_extend_lem word = ground arith

as_signed_int :
    (word : ℕ) {cs : List ℕ}
    → IsNumber (2 ^ 63) 10 (sign_extend word) true cs
    → IsNumber (2 ^ 31) 10 (word % 2 ^ 32) true cs
as_signed_int word (below_zero h k e) = below_zero (ground (arith, h)) k (ground (arith, h, e))
as_signed_int word (not_below h k e) = not_below (ground (arith, h)) k (ground (arith, h, e))

as_extended :
    (base word : ℕ) {cs : List ℕ}
    → IsNumber (2 ^ 63) base (sign_extend word) false cs
    → IsNumber (2 ^ 63) base (extended word) false cs
as_extended base word {cs} k =
    subst (λ xx. IsNumber (2 ^ 63) base xx false cs) (sign_extend_lem word) k

int_room : (word : ℕ) → HasRoom (sign_extend word) 10 true
int_room word = elim (Bool-cases (ltb (word % 2 ^ 32) (2 ^ 31))) [
  | inl small ↦ decimal_room true (ground (arith, small))
  | inr large ↦ negative_room (ground (arith, large)) (ground arith)
]

in_radix_lem :
    (word : ℕ) {w : Width} {r : Radix}
    → HasWordRoom word w r
    → (cs : List ℕ) × (in_radix r (widened w word) ≡ some cs) × IsKernelText w r word cs
in_radix_lem word int_decimal =
    let (cs, e, k) = printint_lem (sign_extend word) 10 true (int_room word) in
    (cs, e, as_signed_int word k)
in_radix_lem word (int_unsigned small) =
    let (cs, e, k) =
      printint_lem (sign_extend word) 10 false (decimal_room false (ground (arith, small))) in
    (cs, e, as_extended 10 word k)
in_radix_lem word int_hex =
    let (cs, e, k) = printint_lem (sign_extend word) 16 false (hex_room (ground arith)) in
    (cs, e, as_extended 16 word k)
in_radix_lem word (long_decimal room) = printint_lem word 10 true room
in_radix_lem word (long_unsigned room) = printint_lem word 10 false room
in_radix_lem word (long_hex room) = printint_lem word 16 false room
in_radix_lem word (long_long_decimal room) = printint_lem word 10 true room
in_radix_lem word (long_long_unsigned room) = printint_lem word 10 false room
in_radix_lem word (long_long_hex room) = printint_lem word 16 false room

module _ (text : ℕ → List ℕ) (args : ℕ → ℕ) where
  output_lem :
      (n : ℕ) {ps : List Piece}
      → HaveRoom args n ps
      → (cs : List ℕ) × (output text args n ps ≡ some cs) × IsOutput IsKernelText text args n ps cs
  output_lem n no_room = ([], refl, no_piece)
  output_lem n (plain_room {c} more) =
      let (cs, e, k) = output_lem n more in
      (c ∷ cs, ap (followed_by (some (c ∷ []))) e, put_plain k)
  output_lem n (number_room {w} {r} room more) =
      let (ds, d, j) = in_radix_lem (args n) room in
      let (cs, e, k) = output_lem (n + 1) more in (ds ++ cs, ap₂ followed_by d e, put_number j k)
  output_lem n (address_room small more) =
      let (cs, e, k) = output_lem (n + 1) more in
      (
        printptr (args n) ++ cs,
        ap (followed_by (some (printptr (args n)))) e,
        put_address (printptr-IsAddress (args n) small) k,
      )
  output_lem n (words_room more) =
      let (cs, e, k) = output_lem (n + 1) more in
      let shown : List ℕ = if args n == 0 then null_text else text (args n) in
      (shown ++ cs, ap (followed_by (some shown)) e, put_words k)
  output_lem n (sign_room more) =
      let (cs, e, k) = output_lem n more in
      (b'%' ∷ cs, ap (followed_by (some (b'%' ∷ []))) e, put_sign k)

-- A format is put together from characters other than a percent sign and the conversions %d, %u, %x with their
-- `l` and `ll`, %p, %s and %%, the 16 bytes of printint have room for each number, and a pointer has 64
-- bits. Then printf prints without storing behind them, and prints the pieces one after the other, each
-- conversion with the next argument: a number as one digit or more that read back as it, with a minus sign
-- exactly for a negative one of %d, of an `int` its lower 32 bits, sign-extended for %u and %x; a pointer
-- as 0x and 16 digits that read back as it; a string as it is, or (null).
pub printf_lem :
    (text : ℕ → List ℕ) (args : ℕ → ℕ) {ps : List Piece}
    → AreSpelled ps
    → HaveRoom args 0 ps
    → (cs : List ℕ) × (printf text args (spelled ps) ≡ some cs)
      × IsOutput IsKernelText text args 0 ps cs
printf_lem text args s room =
    let (cs, e, k) = output_lem text args 0 room in (cs, printf-output text args s ∙ e, k)
