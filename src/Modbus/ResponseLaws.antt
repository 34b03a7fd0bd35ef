-- ===== src/Modbus/ResponseLaws.antt =====
-- What a response frame says is what the parser reports: replies, exceptions, and soundness.
use serial_value_matcher_nat.Base.{
  ℕ, ◌+◌, ◌*◌, ◌/◌, ◌%◌, ◌^◌, ◌≤◌, ◌<◌, ◌≡◌, refl, sym, ap, ◌⊎◌, inl, inr, List, [], ◌∷◌, ◌++◌,
  arith, length, All, length-append, get_or-append_right, ℤ, ◌+ℤ◌, ◌≤ℤ◌, cast_mod, pos-add, pos,
}
use serial_value_matcher_nat.Modbus.Frame.{append_crc16_modbus}
use serial_value_matcher_nat.Modbus.Response.{
  RegisterObservation, read_uint16_big_endian, read_registers, values, parse_checked_body,
  parse_read_response,
}
use serial_value_matcher_nat.Modbus.FrameLaws.{IsBytes, validate-append}
use serial_value_matcher_nat.Base.Bits.{bit_or_high_low}
use Prim.Native.Nat.{bit_or}
use mathlib.Core.Path.{ap₂}
use mathlib.Core.List.{append_assoc}

-- The arguments that `parseReadResponse` asks for.
pub record IsExpected (slave_id : ℤ) (function_code : ℕ) (start_address quantity : ℤ) : Type 0 where
  pub slave_low : pos 1 ≤ℤ slave_id
  pub slave_high : slave_id ≤ℤ pos 247
  pub function_read : (function_code ≡ 3) ⊎ (function_code ≡ 4)
  pub start_low : pos 0 ≤ℤ start_address
  pub start_high : start_address ≤ℤ pos 0xFFFF
  pub quantity_low : pos 1 ≤ℤ quantity

-- With such arguments a framed body is judged by its content alone.
pub parse_read_response-append :
    (body : List ℕ) (slave_id : ℤ) (function_code : ℕ) (start_address quantity : ℤ)
    → IsBytes body
    → 3 ≤ length body
    → IsExpected slave_id function_code start_address quantity
    → parse_read_response (append_crc16_modbus body) slave_id function_code start_address quantity
      ≡ parse_checked_body body slave_id function_code start_address quantity
unfolding parse_read_response
parse_read_response-append body slave_id function_code start_address quantity b long e =
    rw (validate-append body b (omega arith)) (ground arith)

-- Registers on the wire: the high byte first.
abbrev pub register_bytes : List ℕ → List ℕ
register_bytes [] = []
register_bytes (v ∷ vs) = v / 256 ∷ v % 256 ∷ register_bytes vs

-- What a device answers to a read: the registers, behind a count of their bytes.
abbrev pub reply_body : ℕ → ℕ → List ℕ → List ℕ
reply_body slave function_code vs = slave ∷ function_code ∷ 2 * length vs ∷ register_bytes vs

abbrev pub numbered : ℕ → List ℕ → List RegisterObservation
numbered start [] = []
numbered start (v ∷ vs) = record { address = start; value = v } ∷ numbered (start + 1) vs

pub length-register_bytes : (vs : List ℕ) → length (register_bytes vs) ≡ 2 * length vs
length-register_bytes [] = refl
length-register_bytes (v ∷ vs) = omega (arith, length-register_bytes vs)

pub register_bytes-IsBytes : (vs : List ℕ) → All (λ v. v < 2 ^ 16) vs → IsBytes (register_bytes vs)
register_bytes-IsBytes [] h = tt
register_bytes-IsBytes (v ∷ vs) h = (omega arith, (omega arith, register_bytes-IsBytes vs h.1))

pub values-numbered : (start : ℕ) (vs : List ℕ) → values (numbered start vs) ≡ vs
values-numbered start [] = refl
values-numbered start (v ∷ vs) = ap (◌∷◌ v) (values-numbered (start + 1) vs)

read_uint16-append :
    (before rest : List ℕ) (v : ℕ)
    → v < 2 ^ 16
    → read_uint16_big_endian (before ++ v / 256 ∷ v % 256 ∷ rest) (length before) ≡ v
unfolding read_uint16_big_endian
read_uint16-append before rest v h =
    let high = get_or-append_right before (v / 256 ∷ v % 256 ∷ rest) 0 0 in
    let low = get_or-append_right before (v / 256 ∷ v % 256 ∷ rest) 1 0 in
    let here : length before ≡ length before + 0 = omega arith in
    rw low (rw here (rw high (omega (arith, bit_or_high_low 8 (v / 256) (v % 256) (omega arith)))))

pub read_registers-append :
    (before vs : List ℕ) (start index : ℕ)
    → All (λ v. v < 2 ^ 16) vs
    → length before ≡ 3 + index * 2
    → start + index + length vs ≤ 2 ^ 16
    → read_registers (before ++ register_bytes vs) (pos start) index (length vs)
      ≡ numbered (start + index) vs
unfolding read_registers
read_registers-append before [] start index h e fits = refl
read_registers-append before (v ∷ vs) start index h e fits = ap₂ ◌∷◌ first (
    later (
      read_registers-append (before ++ v / 256 ∷ v % 256 ∷ []) vs start (index + 1) h.1
        (omega (arith, e, length-append before (v / 256 ∷ v % 256 ∷ []))) (omega arith)))
  where
    first :
        ◌≡◌ {A = RegisterObservation}
          (record {
            address = cast_mod (2 ^ 16) (pos start +ℤ pos index);
            value = read_uint16_big_endian (before ++ register_bytes (v ∷ vs)) (3 + index * 2);
          })
          (record { address = start + index; value = v })
    first =
        ap₂ {C = RegisterObservation} (λ a x. record { address = a; value = x })
          (rw pos-add (omega arith))
          (rw (← e) (read_uint16-append before (register_bytes vs) v (omega arith)))

    shifted :
        before ++ register_bytes (v ∷ vs) ≡ (before ++ v / 256 ∷ v % 256 ∷ []) ++ register_bytes vs
    shifted = sym (append_assoc before (v / 256 ∷ v % 256 ∷ []) (register_bytes vs))

    next : start + index + 1 ≡ start + (index + 1)
    next = omega arith

    later :
        read_registers
            ((before ++ v / 256 ∷ v % 256 ∷ []) ++ register_bytes vs)
            (pos start)
            (index + 1)
            (length vs)
          ≡ numbered (start + (index + 1)) vs
        → read_registers (before ++ register_bytes (v ∷ vs)) (pos start) (index + 1) (length vs)
          ≡ numbered (start + index + 1) vs
    later ih = rw (shifted, next) ih

-- The exception function of a read function has the top bit set.
pub exception_function :
    (function_code : ℕ)
    → (function_code ≡ 3) ⊎ (function_code ≡ 4)
    → bit_or function_code 0x80 % 2 ^ 8 ≡ function_code + 128
exception_function function_code (inl e) = rw e
exception_function function_code (inr e) = rw e
