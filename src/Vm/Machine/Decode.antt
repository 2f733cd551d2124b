-- ===== src/Vm/Machine/Decode.antt =====
-- vm/src/vm.rs: bytecode is turned into a graph of cells, by a stack machine of its own.
pub mod Numbers
pub mod Fuel
pub mod Sequence
use wispy_vm.Prelude.{
  ℕ, zero, suc, ◌-◌, ◌/◌, ◌%◌, ◌^◌, Option, none, some, List, [], ◌∷◌, ◌==◌, if◌then◌else◌, length,
}
use wispy_vm.Lzss.{max_window_size}
use wispy_vm.Lzss.Codec.{decompress}
use wispy_vm.Vm.Error.{Error}
use wispy_vm.Vm.Tags.{frame_slot}
use wispy_vm.Vm.Cons
use wispy_vm.Vm.Cons.{Cons}
use wispy_vm.Vm.Value
use wispy_vm.Vm.Value.{Value, Number, zero_value}
use wispy_vm.Vm.ValueInner.{word}
use wispy_vm.Vm.Memory.{
  M, ok, stuck, and_then, ◌>>=◌, ◌>>◌, pure, fail, gets, modify, car, cdr, set_car, set_cdr,
  set_raw_cdr,
}
use wispy_vm.Vm.Memory.Gc.{allocate}
use wispy_vm.Vm.Memory.Stack.{null, cons, push, pop, top, set_top, tail}
use wispy_vm.Vm.Machine.Integer.{
  share_base, tag_base, number_base, decode_integer_tail, decode_number,
}
use wispy_vm.Vm.Machine.Instructions.{set_code, set_stack, set_register}

abbrev bytecode_end : {A : Type 0} → Option A → M A
bytecode_end none = fail Error.bytecode_end
bytecode_end (some a) = pure a

-- A value that is to be shared: it is remembered on the list in the field `code`.
unfoldable pub remember : M (Unit {0})
remember = do v ← top; c ← gets (λ m. m.code); c' ← cons v c; set_code c'

-- The entry at `index` of the list is moved to its front. `index as usize - 1` wraps around where
-- overflow is not checked.
unfoldable pub move_to_front : ℕ → M (Unit {0})
move_to_front zero = pure tt
move_to_front (suc i) = do
  c ← gets (λ m. m.code)
  before ← tail c (i % word)
  head ← cdr before
  rest ← cdr head
  c' ← gets (λ m. m.code)
  set_cdr head c'
  set_cdr before rest
  set_code head

-- A value that was remembered; the lowest bit says that it is still needed.
unfoldable pub recall : ℕ → M (Unit {0})
recall integer = do
  move_to_front (integer / 2)
  c ← gets (λ m. m.code)
  v ← car c
  if integer % 2 == 0 then (do c' ← gets (λ m. m.code); rest ← cdr c'; set_code rest) else pure tt
  push v

-- Two values of the stack become a cell, which is the stack's own cell used again.
unfoldable pub make_rib : Cons → Value → Value → ℕ → M (Unit {0})
make_rib cell a d tag = do
  set_car cell a
  set_raw_cdr cell (Value.set_tag d (tag % 2 ^ 16))
  set_top cell

-- One round of the loop: the byte `head` and what it takes from the rest of the input.
unfoldable pub decode_rib : (ℕ → Number) → ℕ → List ℕ → M (List ℕ)
decode_rib float head input =
    if head % 2 == 0
    then (if head / 2 == 0 then (do remember; pure input) else (do
      (integer, rest) ← bytecode_end (decode_integer_tail input (head / 2 - 1) share_base)
      recall integer
      pure rest))
    else if head / 2 % 2 == 0
    then (do
      cell ← gets (λ m. m.stack)
      d ← pop
      a ← top
      (tag, rest) ← bytecode_end (decode_integer_tail input (head / 4) tag_base)
      make_rib cell a d tag
      pure rest)
    else (do
      (n, rest) ← bytecode_end (decode_integer_tail input (head / 4) number_base)
      push (decode_number float n)
      pure rest)

-- Each round takes a byte at least, so as many rounds as there are bytes are enough.
unfoldable pub decode_loop : (ℕ → Number) → ℕ → List ℕ → M (Unit {0})
decode_loop float fuel [] m = ok tt m
decode_loop float zero (head ∷ input) m = stuck
decode_loop float (suc fuel) (head ∷ input) m =
    and_then (decode_rib float head input m) (decode_loop float fuel)

unfoldable pub decode_ribs : (ℕ → Number) → List ℕ → M Cons
decode_ribs float bytes = do
  decode_loop float (length bytes) bytes
  v ← pop
  bytecode_end (Value.to_cons v)

-- The implicit top-level frame: its continuation has one instruction and an empty stack.
unfoldable pub push_top_frame : M (Unit {0})
push_top_frame = do
  nil ← null
  codes ← cons zero_value nil
  nil' ← null
  k ← cons codes nil'
  nil'' ← null
  stack ← allocate k (Cons.set_tag nil'' frame_slot)
  set_stack stack
  set_register Cons.never

abbrev decompressed : Option (List ℕ) → M (List ℕ)
decompressed none m = stuck
decompressed (some bytes) m = ok bytes m

-- `decompress` panics on no input, so `decompressed` is never stuck.
unfoldable pub initialize : (ℕ → Number) → List ℕ → M (Unit {0})
initialize float input = do
  bytes ← decompressed (decompress max_window_size input)
  program ← decode_ribs float bytes
  f ← car program
  modify (λ m. record m { false_cons = f })
  c ← cdr program
  set_code c
  push_top_frame
